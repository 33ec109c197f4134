-- ===== src/Cred/Lifetime.antt =====
-- `auks_cred_renew_test` of auks_cred.c: when a credential is renewed.
use auks.Base.{ℕ, ◌+◌, ◌≤◌, ◌<◌, ◌^◌, ◌≡◌, ◌↔◌, none, arith}
use auks.Cred.{Cred, renew_test}

-- Times and the limit are numbers of seconds that fit an `int`.
pub record IsTimed (cred : Cred) (minlifetime now : ℕ) : Type 0 where
  pub ordered : cred.info.starttime ≤ cred.info.endtime
  pub endtime_small : cred.info.endtime < 2 ^ 31
  pub minlifetime_small : minlifetime < 2 ^ 31
  pub now_small : now < 2 ^ 31

-- auks_cred_renew_test says to renew a credential exactly when it has not expired, at most
-- minlifetime seconds of it are left and its whole life is longer; times and the limit fit an int,
-- and it does not end before it starts.
pub renew_test_iff :
    (cred : Cred) (minlifetime now : ℕ)
    → IsTimed cred minlifetime now
    → (renew_test cred minlifetime now ≡ none) ↔ (
        (now ≤ cred.info.endtime)
        × (cred.info.endtime ≤ now + minlifetime)
        × (cred.info.starttime + minlifetime < cred.info.endtime))
unfolding renew_test
renew_test_iff cred minlifetime now v = (λ h. ground arith, λ h. ground arith)
