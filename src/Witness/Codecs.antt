-- ===== src/Witness/Codecs.antt =====
-- The theorems on the bytes of entries, messages, control entries and answers, at small ones.
use arbitro_raft.Base.{ℕ, ◌+◌, ◌≡◌, ◌≢◌, refl, List, [], ◌∷◌, ◌++◌, some, length, arith}
use arbitro_raft.Types.{LogEntry}
use arbitro_raft.Wire.Entries.{entry_iter, entries_bytes, entry_iter-entries_bytes}
use arbitro_raft.Membership.{ConfigChangeEntry, joint, encode, decode}
use arbitro_raft.Membership.Codec.{decode-encode}
use arbitro_raft.Error.{ok}
use arbitro_raft.Wire.{RaftMessage, append_entries_vectored}
use arbitro_raft.Wire.Bodies.{append_layout}
use arbitro_raft.Wire.Encode.{encode_message_to_bytes, body_total_len}
use arbitro_raft.Wire.Decode.{decode_message}
use arbitro_raft.Wire.RoundTrip.{wire_form, IsSendable, decode_message-encode_message_to_bytes}
use arbitro_raft.Dispatch.Spec.{next_tx_id}
use arbitro_raft.Dispatch.Response.{
  DispatchResponse, kind_progress, encode_dispatch_response, parse_response,
}
use arbitro_raft.Dispatch.Codec.{
  parse_response-encode_dispatch_response, counter_after, next_tx_id-distinct,
}

abbrev two_entries : List LogEntry
two_entries =
    record { term = 3; index = 7; payload = 1 ∷ 2 ∷ [] }
    ∷ record { term = 4; index = 8; payload = [] }
    ∷ []

entry_iter-entries_bytes_example : entry_iter (entries_bytes two_entries) 2 ≡ two_entries
entry_iter-entries_bytes_example = entry_iter-entries_bytes two_entries (
  record { term_fits = omega arith; index_fits = omega arith; payload_fits = omega arith },
  (record { term_fits = omega arith; index_fits = omega arith; payload_fits = omega arith }, tt),
)

abbrev replace_three : ConfigChangeEntry
replace_three = record { phase = joint; old_peers = 1 ∷ 2 ∷ 3 ∷ []; new_peers = 1 ∷ 2 ∷ 4 ∷ [] }

decode-encode_example : decode (encode replace_three ++ 9 ∷ []) ≡ some replace_three
decode-encode_example = decode-encode replace_three (9 ∷ []) (record {
  olds = (omega arith, (omega arith, (omega arith, tt)));
  news = (omega arith, (omega arith, (omega arith, tt)));
  old_len = omega arith;
  new_len = omega arith;
})

abbrev three : RaftMessage
three =
    append_entries_vectored
      (record {
        term = 3;
        leader_id = 1;
        prev_log_index = 6;
        prev_log_term = 3;
        leader_commit = 6;
        entry_count = 2;
        pad = 0;
      })
      two_entries

decode_message-encode_message_to_bytes_example :
    (frame : List ℕ) × (encode_message_to_bytes 1 three ≡ ok frame)
    × (length frame ≡ 32 + body_total_len three)
    × (decode_message frame ≡ ok (record { from = 1; group_id = 0; message = wire_form three }))
unfolding IsSendable body_total_len append_layout
decode_message-encode_message_to_bytes_example =
    decode_message-encode_message_to_bytes 1 three (omega arith) (omega arith) (
      refl,
      refl,
      (
        record { term_fits = omega arith; index_fits = omega arith; payload_fits = omega arith },
        (
          record { term_fits = omega arith; index_fits = omega arith; payload_fits = omega arith },
          tt,
        ),
      ),
    )

abbrev answer : DispatchResponse
answer = record { tx_id = 9; command = 4; kind = kind_progress; payload = 1 ∷ 2 ∷ [] }

parse_response-encode_dispatch_response_example :
    (frame : List ℕ) × (encode_dispatch_response answer ≡ ok frame)
    × (parse_response (frame ++ 7 ∷ []) ≡ ok (record answer { payload = 1 ∷ 2 ∷ 7 ∷ [] }))
parse_response-encode_dispatch_response_example =
    parse_response-encode_dispatch_response answer (7 ∷ []) (omega arith) (omega arith)
      (omega arith)

next_tx_id-distinct_example :
    (next_tx_id 4 (counter_after 4 18446744073709551615 0)).0
    ≢ (next_tx_id 4 (counter_after 4 18446744073709551615 5)).0
next_tx_id-distinct_example =
    next_tx_id-distinct 4 18446744073709551615 0 5 (omega arith) (omega arith) (omega arith)
