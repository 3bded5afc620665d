-- ===== src/Fixture/Generate/Usable.antt =====
-- Which options `main` goes on with.
use zkproof_demo.Base.{◌≤◌, ◌<◌, ◌≡◌, length, arith, ◌↔◌}
use zkproof_demo.Fixture.Result.{ok}
use zkproof_demo.Fixture.Generate.{Options, check_options}

-- An epoch of 16 bits that is not 0, no more commits than computors, no more bad or wrong ones than
-- commits, an index of a computor, ticks of 32 bits, the commits after the query, and a message that
-- fits.
pub record IsUsable (o : Options) : Type 0 where
  pub epoch : (1 ≤ o.epoch) × (o.epoch ≤ 65535)
  pub commits : o.commits ≤ 676
  pub bad_commits : o.bad_commits ≤ o.commits
  pub wrong_digest : o.wrong_digest ≤ o.commits
  pub reveal_by : o.reveal_by < 676
  pub query_tick : o.query_tick ≤ 0xffffffff
  pub commit_tick : o.commit_tick ≤ 0xffffffff
  pub reveal_tick : o.reveal_tick ≤ 0xffffffff
  pub later : o.query_tick < o.commit_tick
  pub message : (1 ≤ length o.message) × (length o.message ≤ 1008)

-- The tests on the options pass exactly for the usable ones.
pub check_options-iff-IsUsable : (o : Options) → (check_options o ≡ ok tt) ↔ IsUsable o
unfolding check_options
check_options-iff-IsUsable o = (λ h. ground arith, λ u. ground arith)
