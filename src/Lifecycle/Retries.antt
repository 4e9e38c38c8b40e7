-- ===== src/Lifecycle/Retries.antt =====
-- When validation does not send a node back to decide again.
use cherry_on_top.Base.{◌≡◌, ◌⊎◌, true, arith}
use cherry_on_top.Lifecycle.{
  validate, complete, failed, Context, ValidationVerdict, Machine, validated, validation_error,
  step, is_rate_limited,
}

-- A node in VALIDATE whose last result was refused for a rate limit is never retried: a verdict or
-- a failure of the validator ends it, as complete or as failed.
pub rate_limited_ends :
    (c : Context) (v : ValidationVerdict)
    → is_rate_limited c.last_result ≡ true
    → let m : Machine = record { state = validate; context = c } in
      (((step m (validated v)).state ≡ complete) ⊎ ((step m (validated v)).state ≡ failed))
      × ((step m validation_error).state ≡ failed)
unfolding step
rate_limited_ends c v h = ground arith
