-- ===== src/Sponge/Absorb.antt =====
-- `KangarooTwelve_F_Absorb` on every node and every input.
use zkproof_demo.Base.{
  ℕ, zero, suc, ◌<◌, ◌≤◌, ◌≡◌, refl, sym, ap, ◌∙◌, ne→==, eq→==, le→leb, lt→leb, List, [], ◌∷◌,
  length, take, drop, take-append-drop, length-drop, arith,
}
use zkproof_demo.Sponge.{
  KangarooTwelveF, rate_in_bytes, partial_block, absorb_partial, absorb_step, absorb_loop, absorb,
}
use zkproof_demo.Sponge.Bytes.{IsBytes, IsBytes-drop}
use zkproof_demo.Sponge.Feed.{IsNode, feed_all, feed_all-append, feed_all-IsNode}
use zkproof_demo.Sponge.Partial.{partial_block_bounds, absorb_partial-eq-feed_all}
use zkproof_demo.Sponge.Blocks.{Fed, absorb_whole-Fed}
use native.Mathlib.Decide.{dec_lt, ℕ_discrete}

absorb_partial-Fed :
    (f : KangarooTwelveF) (bytes : List ℕ)
    → IsNode f
    → IsBytes bytes
    → 0 < length bytes
    → Fed f bytes (absorb_partial f bytes)
absorb_partial-Fed f bytes n h pos =
    let p = partial_block f.byte_io_index (length bytes) in
    let within = partial_block_bounds f.byte_io_index (length bytes) n.in_block pos in
    rw (absorb_partial-eq-feed_all f bytes n h pos) (record {
      same =
          ap (feed_all f) (sym (take-append-drop p bytes))
          ∙ feed_all-append f (take p bytes) (drop p bytes);
      fewer = omega (arith, within, length-drop p bytes);
      rest_bytes = IsBytes-drop p bytes h;
      node = feed_all-IsNode f (take p bytes) n;
    })

absorb_step-Fed :
    (f : KangarooTwelveF) (bytes : List ℕ)
    → IsNode f
    → IsBytes bytes
    → 0 < length bytes
    → Fed f bytes (absorb_step f bytes)
unfolding absorb_step
absorb_step-Fed f bytes n h pos = elim (ℕ_discrete f.byte_io_index 0) [
  | no ne ↦ rw (ne→== f.byte_io_index 0 ne) (absorb_partial-Fed f bytes n h pos)
  | yes e ↦ elim (dec_lt (length bytes) rate_in_bytes) [
    | yes p ↦
        rw (eq→== f.byte_io_index 0 e, lt→leb rate_in_bytes (length bytes) p)
          (absorb_partial-Fed f bytes n h pos)
    | no p ↦
        rw (eq→== f.byte_io_index 0 e, le→leb rate_in_bytes (length bytes) (omega arith))
          (absorb_whole-Fed f bytes n h e (omega arith))
  ]
]

absorb_loop-eq-feed_all :
    (fuel : ℕ) (f : KangarooTwelveF) (bytes : List ℕ)
    → length bytes ≤ fuel
    → IsNode f
    → IsBytes bytes
    → absorb_loop fuel f bytes ≡ feed_all f bytes
unfolding absorb_loop feed_all
absorb_loop-eq-feed_all zero f [] enough n h = refl
absorb_loop-eq-feed_all zero f (b ∷ bs) enough n h = absurd (omega arith)
absorb_loop-eq-feed_all (suc fuel) f [] enough n h = refl
absorb_loop-eq-feed_all (suc fuel) f (b ∷ bs) enough n h =
    let step = absorb_step-Fed f (b ∷ bs) n h (omega arith) in
    rw (ne→== (suc (length bs)) 0 (λ z. omega arith), absorb_loop)
      (absorb_loop-eq-feed_all fuel (absorb_step f (b ∷ bs)).0 (absorb_step f (b ∷ bs)).1
          (omega (arith, step.fewer)) step.node step.rest_bytes
        ∙ sym step.same)

-- `KangarooTwelve_F_Absorb`, with its two branches, its loop over whole blocks and its lane loops,
-- leaves the node that absorbing byte by byte leaves, for a well-formed node and a list of bytes.
pub absorb-eq-feed_all :
    (f : KangarooTwelveF) (bytes : List ℕ)
    → IsNode f
    → IsBytes bytes
    → absorb f bytes ≡ feed_all f bytes
unfolding absorb
absorb-eq-feed_all f bytes n h = absorb_loop-eq-feed_all (length bytes) f bytes (omega arith) n h
