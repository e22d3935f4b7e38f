-- ===== src/Tables/Operations/Laws.antt =====
-- How often an operation on a connection runs, and what is returned of it.
use zygote.Common.{
  ℕ, Bool, Option, none, some, if◌then◌else◌, ℤ, pos, Result, ok, err, ◌*ℤ◌, ◌≡◌, refl, sym, ap,
  ◌∙◌, arith,
}
use zygote.Errors.{Err}
use zygote.Backoff.{retry, delay, power_of_two, exhausted}
use zygote.Backoff.Outcome.{state_before, failed, waited, retry-success, retry-exhausted}
use zygote.Backoff.Sound.{retry-Succeeds}
use zygote.Tables.{Handle, MultiDbConnector}
use zygote.Tables.Close.{get_read_connection, get_write_connection}
use zygote.Tables.Operations.{
  classified, no_connection, operation_backoff, classify, on_connection, retry_operation,
}

-- The connection that an operation is given.
abbrev pub get_for : Bool → ℤ → MultiDbConnector → Result Err Handle
get_for is_write i m = if is_write then get_write_connection i m else get_read_connection i m

first_delay : delay operation_backoff 0 ≡ pos 100_000_000
unfolding delay power_of_two ◌*ℤ◌
first_delay = refl

second_delay : delay operation_backoff 1 ≡ pos 200_000_000
unfolding delay power_of_two ◌*ℤ◌
second_delay = refl

module _ {W : Type 0} (wait : ℤ → W → W × Option Err) (i : ℤ) (m : MultiDbConnector)
    (operation : Handle → W → W × Option Err) (is_write : Bool) where
  -- Without a connection the operation does not run, nothing changes, and an error is returned.
  pub retry_operation-missing :
      (e : Err) (w : W)
      → get_for is_write i m ≡ err e
      → retry_operation wait i m operation is_write w ≡ (w, some (no_connection wait i is_write e))
  unfolding retry_operation on_connection
  retry_operation-missing e w missing =
      ap (λ r. on_connection wait i operation is_write r w) missing

  -- A closure that retries sees the operation's result through `classify`.
  closure : Handle → W → W × Option Err
  closure h u = classify wait i is_write (operation h u)

  retry_operation_found :
      (h : Handle) (w : W)
      → get_for is_write i m ≡ ok h
      → retry_operation wait i m operation is_write w ≡ retry operation_backoff wait (closure h) w
  unfolding retry_operation on_connection closure
  retry_operation_found h w found = ap (λ r. on_connection wait i operation is_write r w) found

  classify-none :
      (p : W × Option Err) (v : W) → classify wait i is_write p ≡ (v, none) → p ≡ (v, none)
  unfolding classify
  classify-none (w, none) v e = e
  classify-none (w, some x) v e = ground arith

  closure-none : (h : Handle) (u v : W) → operation h u ≡ (v, none) → closure h u ≡ (v, none)
  unfolding closure classify
  closure-none h u v e = ap (classify wait i is_write) e

  closure-some :
      (h : Handle) (u v : W) (e : Err)
      → operation h u ≡ (v, some e)
      → closure h u ≡ (v, some (classified wait i is_write e))
  unfolding closure classify
  closure-some h u v e h' = ap (classify wait i is_write) h'

  -- An operation that succeeds at once is run once.
  pub retry_operation-first :
      (h : Handle) (w v : W)
      → get_for is_write i m ≡ ok h
      → operation h w ≡ (v, none)
      → retry_operation wait i m operation is_write w ≡ (v, none)
  unfolding state_before
  retry_operation-first h w v found good =
      retry_operation_found h w found
      ∙ retry-success operation_backoff wait (closure h) 3 refl 0 w w (omega arith) refl v
          (closure-none h w v good)

  -- The wait after a run that fails, to the run after it.
  goes_on :
      (h : Handle) (n : ℕ) (delay_n : ℤ) (u v x : W) (e : Err)
      → delay operation_backoff n ≡ delay_n
      → operation h u ≡ (v, some e)
      → wait delay_n v ≡ (x, none)
      → failed operation_backoff wait (closure h) n (closure h u) ≡ some x
  unfolding failed waited
  goes_on h n delay_n u v x e same bad waits =
      ap (failed operation_backoff wait (closure h) n) (closure-some h u v e bad)
      ∙ ap (λ t. waited operation_backoff wait (closure h) (wait t v)) same
      ∙ ap (waited operation_backoff wait (closure h)) waits

  module _ (h : Handle) (found : get_for is_write i m ≡ ok h) (w v x : W) (e : Err)
      (bad : operation h w ≡ (v, some e)) (waits : wait (pos 100_000_000) v ≡ (x, none)) where
    before_second : state_before operation_backoff wait (closure h) 0 1 w ≡ some x
    unfolding state_before
    before_second = rw (state_before, goes_on h 0 (pos 100_000_000) w v x e first_delay bad waits)

    before_third :
        (y z : W) (f : Err)
        → operation h x ≡ (y, some f)
        → wait (pos 200_000_000) y ≡ (z, none)
        → state_before operation_backoff wait (closure h) 0 2 w ≡ some z
    unfolding state_before
    before_third y z f bad' waits' = rw (
      state_before,
      goes_on h 0 (pos 100_000_000) w v x e first_delay bad waits,
      goes_on h 1 (pos 200_000_000) x y z f second_delay bad' waits',
    )

    -- An operation on a connection that is there, which fails, whether the error is transient or
    -- is marked as permanent, is run again after a wait of 100 milliseconds that is not stopped;
    -- if it succeeds then, no error is returned.
    pub retry_operation-second :
        (y : W)
        → operation h x ≡ (y, none)
        → retry_operation wait i m operation is_write w ≡ (y, none)
    retry_operation-second y good =
        retry_operation_found h w found
        ∙ retry-success operation_backoff wait (closure h) 3 refl 1 w x (omega arith) before_second
            y (closure-none h x y good)

    -- After three failures, with waits of 100 and 200 milliseconds between them that are not
    -- stopped, the third error is returned, marked and wrapped.
    retry_operation-third :
        (y z last : W) (f g : Err)
        → operation h x ≡ (y, some f)
        → wait (pos 200_000_000) y ≡ (z, none)
        → operation h z ≡ (last, some g)
        → retry_operation wait i m operation is_write w
          ≡ (last, some (exhausted operation_backoff (classified wait i is_write g)))
    retry_operation-third y z last f g bad' waits' bad'' =
        retry_operation_found h w found
        ∙ retry-exhausted operation_backoff wait (closure h) 3 refl 2 w z (omega arith)
            (before_third y z f bad' waits') last (classified wait i is_write g) refl
            (closure-some h z last g bad'')

  -- On a connection that is there, no error is returned only if the operation itself has returned
  -- none, from a state that it was run in and with the state that it left.
  pub retry_operation_sound :
      (h : Handle) (w v : W)
      → get_for is_write i m ≡ ok h
      → retry_operation wait i m operation is_write w ≡ (v, none)
      → (u : W) × (operation h u ≡ (v, none))
  unfolding closure
  retry_operation_sound h w v found good =
      let (k, u, below, reached, done) =
        retry-Succeeds operation_backoff wait (closure h) w v
          (sym (retry_operation_found h w found) ∙ good) in
      (u, classify-none (operation h u) v done)
