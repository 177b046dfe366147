-- ===== src/Checkin/Finish/History.antt =====
-- What an execution of a2/A2.c's program was: when each customer entered its queue, and the visits to
-- each queue, read off the steps that were taken.
use csc.Base.{
  ℕ, ◌≡◌, ◌≢◌, refl, ap, ◌∙◌, Bool, true, false, List, [], ◌∷◌, some, if◌then◌else◌, ◌&&◌, not,
}
use csc.Checkin.Threads.{
  Class, economy, business, class_of, Phase, arriving, entered, Setup, put, is_class,
}
use csc.Checkin.Threads.Moves.{is_past}
use csc.Checkin.Finish.{
  Doubles, Program, Time, get_current_system_time, Plays, starts, customer_plays, clerk_plays,
  wait_returns, main_plays,
}

abbrev pub is_arriving : Phase → Bool
is_arriving arriving = true
is_arriving _ = false

abbrev pub is_entered : Phase → Bool
is_entered entered = true
is_entered _ = false

-- The customer went into the queue.
abbrev pub enters : (before after : Phase) → Bool
enters before after = is_arriving before && is_entered after

-- The customer went out of the queue.
abbrev pub leaves : (before after : Phase) → Bool
leaves before after = not (is_past before) && is_past after

pub leaves-same : (x q : Phase) → is_past q ≡ is_past x → leaves x q ≡ false
leaves-same x q e = ap (λ b. not (is_past x) && b) e ∙ neither (is_past x)
  where
    neither : (b : Bool) → not b && b ≡ false
    neither true = refl
    neither false = refl

pub is_class_self : (c : Class) → is_class c (some c) ≡ true
is_class_self economy = refl
is_class_self business = refl

pub is_class_other : (c d : Class) → d ≢ c → is_class d (some c) ≡ false
is_class_other economy economy apart = absurd (apart refl)
is_class_other economy business apart = refl
is_class_other business economy apart = refl
is_class_other business business apart = absurd (apart refl)

module _ (doubles : Doubles) {init_time : Time} {setup : Setup} {n : ℕ} where
  open doubles use {Double}

  -- When each customer entered its queue.
  abbrev pub entry_times : {p : Program doubles} → Plays doubles init_time setup n p → ℕ → Double
  entry_times (starts unset) = unset
  entry_times (customer_plays {p} {p'} curr_time i k plays chosen run) =
      if enters (p.system.customer i) (p'.system.customer i)
      then put (entry_times plays) i (get_current_system_time doubles init_time curr_time)
      else entry_times plays
  entry_times (clerk_plays k plays low high) = entry_times plays
  entry_times (wait_returns plays returns) = entry_times plays
  entry_times (main_plays plays) = entry_times plays

  -- The visits to a queue that are over: the customer, and when it left the queue. The last comes first.
  abbrev pub visits_of :
      {p : Program doubles} → Plays doubles init_time setup n p → Class → List (ℕ × Double)
  visits_of (starts unset) c = []
  visits_of (customer_plays {p} {p'} curr_time i k plays chosen run) c =
      if is_class c (class_of (setup.class_type i))
        && leaves (p.system.customer i) (p'.system.customer i)
      then (i, get_current_system_time doubles init_time curr_time) ∷ visits_of plays c
      else visits_of plays c
  visits_of (clerk_plays k plays low high) c = visits_of plays c
  visits_of (wait_returns plays returns) c = visits_of plays c
  visits_of (main_plays plays) c = visits_of plays c
