-- ===== src/Frame/Examples.antt =====
-- Runs of the encoder and the decoder, and the theorems at concrete inputs.
use mathlib.Core.List.{foldl}
use round_robin.Common.{
  ℕ, ◌+◌, ◌≤◌, ◌<◌, ◌≡◌, refl, some, List, [], ◌∷◌, ◌++◌, length, concat, ok, err, arith, All,
}
use round_robin.Wire.{list_buf}
use round_robin.Wire.Utf8.{is_utf8}
use round_robin.Frame.{Frame, encode, encode_into, max_payload, payload_too_large, header_len}
use round_robin.Frame.New.{data_frame, fin_frame}
use round_robin.Frame.Encode.{wire, encode_into_branches}
use round_robin.Frame.Decoder.{Read, read, Next, eof, read_loop, try_next, parse, round}
use round_robin.Frame.Decoder.Total.{Outcome, try_next-Outcome, read_loop_total}
use round_robin.Frame.Stream.{CanSend, IsCut, reads_of, encode_all, read_loop-encode_all}
use round_robin.Frame.Syn.{SynTarget, IsSynTarget, decode_syn}
use round_robin.Frame.SynRoundTrip.{DecodesAs, decode_syn-DecodesAs}

abbrev hello : Frame
hello = record { conn_id = 42; seq = 7; flags = 2; payload = 104 ∷ 105 ∷ [] }

abbrev goodbye : Frame
goodbye = record { conn_id = 42; seq = 8; flags = 4; payload = [] }

hello_new : data_frame 42 7 (104 ∷ 105 ∷ []) ≡ hello
unfolding data_frame
hello_new = refl

goodbye_new : fin_frame 42 8 ≡ goodbye
unfolding fin_frame
goodbye_new = refl

abbrev hello_bytes : List ℕ
hello_bytes = 0 ∷ 0 ∷ 0 ∷ 42 ∷ 0 ∷ 0 ∷ 0 ∷ 0 ∷ 0 ∷ 0 ∷ 0 ∷ 7 ∷ 2 ∷ 0 ∷ 2 ∷ 104 ∷ 105 ∷ []

hello_encoded : encode list_buf hello ≡ ok hello_bytes
unfolding encode
hello_encoded = refl

-- The two frames, cut inside the header of each.
abbrev cuts : List (List ℕ)
cuts =
    (0 ∷ 0 ∷ 0 ∷ 42 ∷ 0 ∷ [])
    ∷ (0 ∷ 0 ∷ 0 ∷ 0 ∷ 0 ∷ 0 ∷ 7 ∷ 2 ∷ 0 ∷ 2 ∷ 104 ∷ 105 ∷ 0 ∷ 0 ∷ [])
    ∷ (0 ∷ 42 ∷ 0 ∷ 0 ∷ 0 ∷ 0 ∷ 0 ∷ 0 ∷ 0 ∷ 8 ∷ 4 ∷ 0 ∷ 0 ∷ [])
    ∷ []

abbrev collect : List Frame → Frame → List Frame
collect s f = s ++ f ∷ []

cuts_are_encoded : encode_all list_buf (hello ∷ goodbye ∷ []) ≡ ok (concat cuts)
unfolding encode
cuts_are_encoded = refl

both_CanSend : All CanSend (hello ∷ goodbye ∷ [])
both_CanSend = omega arith

cuts-IsCut : IsCut cuts
cuts-IsCut = ((λ e. cc), ((λ e. cc), ((λ e. cc), tt)))

cuts_decoded : read_loop list_buf 3 collect [] [] (reads_of cuts) ≡ some (hello ∷ goodbye ∷ [], eof)
unfolding read_loop try_next round parse
cuts_decoded = refl

read_loop-encode_all_example :
    read_loop list_buf 3 collect [] [] (reads_of cuts)
    ≡ some (foldl collect [] (hello ∷ goodbye ∷ []), eof)
read_loop-encode_all_example =
    read_loop-encode_all list_buf collect [] (hello ∷ goodbye ∷ []) cuts both_CanSend cuts-IsCut
      cuts_are_encoded

abbrev cut_short : List Read
cut_short = read (0 ∷ 0 ∷ []) ∷ read [] ∷ []

try_next-Outcome_example :
    let r = try_next list_buf (0 ∷ []) cut_short in Outcome (0 ∷ []) cut_short r.0 r.1 r.2
try_next-Outcome_example = try_next-Outcome list_buf (0 ∷ []) cut_short (omega arith) (omega arith)

read_loop_total_example :
    (r : List Frame × Next) × (read_loop list_buf 4 collect [] (0 ∷ []) cut_short ≡ some r)
read_loop_total_example =
    read_loop_total list_buf collect 4 [] (0 ∷ []) cut_short (omega arith) (omega arith)
      (omega arith)

encode_into_branches_example :
    (2 ≤ max_payload
      → (encode_into list_buf hello [] ≡ ok ([] ++ wire hello))
        × (length (wire hello) ≡ header_len + 2))
    × (max_payload < 2 → encode_into list_buf hello [] ≡ err (payload_too_large 2))
encode_into_branches_example = encode_into_branches list_buf hello [] (omega arith)

-- "a.b", port 443, over TCP.
abbrev target : SynTarget
target = record { proto = 6; address = 97 ∷ 46 ∷ 98 ∷ []; port = 443 }

target-IsSynTarget : IsSynTarget target
unfolding is_utf8
target-IsSynTarget = record {
  proto_fits = omega arith;
  port_fits = omega arith;
  address_utf8 = refl;
}

target_decoded : decode_syn (6 ∷ 0 ∷ 3 ∷ 97 ∷ 46 ∷ 98 ∷ 1 ∷ 187 ∷ []) ≡ ok target
unfolding decode_syn is_utf8
target_decoded = refl

decode_syn-DecodesAs_example :
    DecodesAs (6 ∷ 0 ∷ 9 ∷ 97 ∷ 0 ∷ []) (decode_syn (6 ∷ 0 ∷ 9 ∷ 97 ∷ 0 ∷ []))
decode_syn-DecodesAs_example = decode_syn-DecodesAs (6 ∷ 0 ∷ 9 ∷ 97 ∷ 0 ∷ [])
