-- ===== src/Sponge/Blocks.antt =====
-- The loop over whole blocks of `KangarooTwelve_F_Absorb` keeps the state in local variables: it is
-- fed byte by byte too.
use zkproof_demo.Base.{
  ℕ, zero, suc, ◌<◌, ◌≤◌, ◌≡◌, refl, sym, ap, ap₂, ◌∙◌, le→leb, lt→leb, List, [], ◌∷◌, length, take,
  drop, get_or, take-append-drop, length-take, length-drop, arith,
}
use zkproof_demo.Keccak.{Lanes, copy_to_state, copy_from_state, rounds12, permute_12rounds}
use zkproof_demo.Sponge.{
  KangarooTwelveF, rate_in_bytes, load_lanes, xor_lane, xor_lanes, xor_block, absorb_blocks,
  absorb_whole,
}
use zkproof_demo.Sponge.Bytes.{IsBytes, IsBytes-drop}
use zkproof_demo.Sponge.LaneLoops.{xor_lanes-eq-xor_bytes}
use zkproof_demo.Sponge.Feed.{IsNode, permuted, feed_all, feed_all-full, feed_all-append}
use native.Mathlib.Decide.{dec_lt}

tabulate : ℕ → (ℕ → ℕ) → List ℕ
tabulate zero g = []
tabulate (suc n) g = g 0 ∷ tabulate n (λ i. g (suc i))

tabulate-get_or : (s : List ℕ) → tabulate (length s) (λ i. get_or s i 0) ≡ s
unfolding tabulate
tabulate-get_or [] = refl
tabulate-get_or (x ∷ s) = ap (λ t. x ∷ t) (tabulate-get_or s)

-- `copyToState` after `copyFromState` gives 25 lanes back.
pub copy_to_state-copy_from_state :
    (s : List ℕ) → length s ≡ 25 → copy_to_state (copy_from_state s) ≡ s
copy_to_state-copy_from_state s e =
    listed ∙ ap (λ n. tabulate n (λ i. get_or s i 0)) (sym e) ∙ tabulate-get_or s
  where
    listed : copy_to_state (copy_from_state s) ≡ tabulate 25 (λ i. get_or s i 0)
    listed = unfold copy_to_state copy_from_state tabulate in refl

-- The 21 lanes of a block, on the local variables.
block_rounds :
    (a : Lanes) (bytes : List ℕ)
    → copy_to_state (rounds12 (xor_block a (load_lanes 21 bytes)))
      ≡ permute_12rounds (xor_lanes 21 0 (copy_to_state a) bytes)
unfolding copy_to_state copy_from_state xor_block load_lanes xor_lanes xor_lane permute_12rounds
block_rounds a bytes = refl

-- The node whose state the local variables hold.
abbrev held : Lanes → KangarooTwelveF
held a = record { state = copy_to_state a; byte_io_index = 0 }

block-feed_all :
    (a : Lanes) (bytes : List ℕ)
    → IsBytes bytes
    → rate_in_bytes ≤ length bytes
    → feed_all (held a) bytes
      ≡ feed_all (held (rounds12 (xor_block a (load_lanes 21 bytes)))) (drop rate_in_bytes bytes)
block-feed_all a bytes h have =
    ap (feed_all (held a)) (sym (take-append-drop rate_in_bytes bytes))
    ∙ feed_all-append (held a) (take rate_in_bytes bytes) (drop rate_in_bytes bytes)
    ∙ ap (λ f. feed_all f (drop rate_in_bytes bytes))
        (feed_all-full (copy_to_state a) 0 (take rate_in_bytes bytes) (omega arith)
            (omega (arith, length-take rate_in_bytes bytes))
          ∙ ap permuted (sym (xor_lanes-eq-xor_bytes 21 0 (copy_to_state a) bytes h (omega arith)))
          ∙ ap (λ t. record { state = t; byte_io_index = 0 }) (sym (block_rounds a bytes)))

-- What the loop leaves: an equal node with fewer bytes than a block.
record Blocks (a : Lanes) (bytes : List ℕ) (out : Lanes × List ℕ) : Type 0 where
  same : feed_all (held a) bytes ≡ feed_all (held out.0) out.1
  short : length out.1 < rate_in_bytes
  rest_bytes : IsBytes out.1

absorb_blocks-Blocks :
    (fuel : ℕ) (a : Lanes) (bytes : List ℕ)
    → length bytes ≤ fuel
    → IsBytes bytes
    → Blocks a bytes (absorb_blocks fuel a bytes)
unfolding absorb_blocks
absorb_blocks-Blocks zero a bytes enough h = record {
  same = refl;
  short = omega arith;
  rest_bytes = h;
}
absorb_blocks-Blocks (suc fuel) a bytes enough h = elim (dec_lt (length bytes) rate_in_bytes) [
  | yes p ↦
      rw (lt→leb rate_in_bytes (length bytes) p, absorb_blocks)
        (record { same = refl; short = p; rest_bytes = h })
  | no p ↦
      let have : rate_in_bytes ≤ length bytes = omega arith in
      let rest =
        absorb_blocks-Blocks fuel (rounds12 (xor_block a (load_lanes 21 bytes)))
          (drop rate_in_bytes bytes) (omega (arith, length-drop rate_in_bytes bytes))
          (IsBytes-drop rate_in_bytes bytes h) in
      rw (le→leb rate_in_bytes (length bytes) have, absorb_blocks)
        (record {
          same = block-feed_all a bytes h have ∙ rest.same;
          short = rest.short;
          rest_bytes = rest.rest_bytes;
        })
]

-- A round of the outer loop, on any branch: an equal node, and fewer bytes left.
pub record Fed (f : KangarooTwelveF) (bytes : List ℕ) (out : KangarooTwelveF × List ℕ)
    : Type 0 where
  pub same : feed_all f bytes ≡ feed_all out.0 out.1
  pub fewer : length out.1 < length bytes
  pub rest_bytes : IsBytes out.1
  pub node : IsNode out.0

pub absorb_whole-Fed :
    (f : KangarooTwelveF) (bytes : List ℕ)
    → IsNode f
    → IsBytes bytes
    → f.byte_io_index ≡ 0
    → rate_in_bytes ≤ length bytes
    → Fed f bytes (absorb_whole f bytes)
unfolding absorb_whole copy_to_state
absorb_whole-Fed f bytes n h e have =
    let rest = absorb_blocks (length bytes) (copy_from_state f.state) bytes in
    let out = absorb_blocks-Blocks (length bytes) (copy_from_state f.state) bytes (omega arith) h in
    record {
      same =
          ap₂ (λ s i. feed_all (record { state = s; byte_io_index = i }) bytes)
            (sym (copy_to_state-copy_from_state f.state n.lanes)) e
          ∙ out.same
          ∙ ap (λ i. feed_all (record (held (rest.0)) { byte_io_index = i }) rest.1) (sym e);
      fewer = omega (arith, out.short);
      rest_bytes = out.rest_bytes;
      node = record { lanes = refl; in_block = rw e (omega arith) };
    }
