-- ===== src/Tests/Fragment.antt =====
-- Runs of src/fragment.rs.
use bitmancer.Prelude.{ℕ, ◌≡◌, refl, some, List, [], ◌∷◌, arith, length, get_elem?, All}
use bitmancer.Prelude.Bytes.{to_be_bytes}
use bitmancer.Prelude.Table.{find, put, remove, retain}
use bitmancer.Fragment.{
  FragmentKey, FragmentHeader, Assembler, Append, pending, complete, chunks, chunks_from, split,
  payloads_from, fragment_payload, parse, append, expire, or_fresh, store_piece, fill, finish, join,
}
use bitmancer.Fragment.Parse.{header_of, parse-split}
use bitmancer.Fragment.Bounds.{IsAssembler, append-IsAssembler}
use bitmancer.Fragment.Agreement.{Answers, deliver, deliver_only_body}
use bitmancer.Tests.Samples.{greeting}

abbrev key : FragmentKey
key = record { sender = 1 ∷ []; id = 7 }

abbrev piece : ℕ → List ℕ → FragmentHeader
piece index content = record {
  key = key;
  index = index;
  total = 2;
  original_type = 2;
  content = content;
}

abbrev slices : List (List ℕ)
slices = (104 ∷ []) ∷ (105 ∷ []) ∷ []

delivered :
    deliver ((piece 1 (105 ∷ []), 5) ∷ (piece 0 (104 ∷ []), 6) ∷ []) []
    ≡ some (
      [],
      (piece 1 (105 ∷ []), pending 1 2) ∷ (piece 0 (104 ∷ []), complete (104 ∷ 105 ∷ [])) ∷ [],
    )
unfolding deliver append expire retain find put remove or_fresh store_piece fill finish join
delivered = refl

deliver_only_body_example :
    All
      (λ (e : FragmentHeader × Append). Answers key slices e.0 e.1)
      ((piece 1 (105 ∷ []), pending 1 2) ∷ (piece 0 (104 ∷ []), complete (104 ∷ 105 ∷ [])) ∷ [])
deliver_only_body_example =
    deliver_only_body key slices ((piece 1 (105 ∷ []), 5) ∷ (piece 0 (104 ∷ []), 6) ∷ []) []
      ((piece 1 (105 ∷ []), pending 1 2) ∷ (piece 0 (104 ∷ []), complete (104 ∷ 105 ∷ [])) ∷ [])
      (λ e. (refl, refl), (λ e. (refl, refl), tt)) delivered

append-IsAssembler_example :
    (state : Assembler) × (r : Append) × (append (piece 1 (105 ∷ [])) 5 [] ≡ some (state, r))
    × IsAssembler state
append-IsAssembler_example =
    append-IsAssembler (piece 1 (105 ∷ [])) 5 []
      (record { in_range = omega arith; bounded = omega arith })
      (record { entries = tt; few = omega arith })

second_payload :
    get_elem? (split 7 2 (104 ∷ 105 ∷ []) 1) 1 ≡ some (fragment_payload 7 2 2 1 (105 ∷ []))
unfolding split chunks chunks_from payloads_from fragment_payload to_be_bytes
second_payload = refl

parse-split_example :
    (slice : List ℕ) × (get_elem? (chunks 1 (104 ∷ 105 ∷ [])) 1 ≡ some slice)
    × (parse (record greeting { payload = fragment_payload 7 2 2 1 (105 ∷ []) })
        ≡ some (header_of greeting.sender_id 7 2 (length (chunks 1 (104 ∷ 105 ∷ []))) 1 slice))
parse-split_example =
    parse-split (record greeting { payload = fragment_payload 7 2 2 1 (105 ∷ []) }) 7 2 1 1
      (104 ∷ 105 ∷ []) (fragment_payload 7 2 2 1 (105 ∷ [])) (omega arith) second_payload refl
