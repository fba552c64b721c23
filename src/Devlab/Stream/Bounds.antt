-- ===== src/Devlab/Stream/Bounds.antt =====
-- A tail of devlab/stream.py stays within its message count and its deadline, and ends.
use realtime_finance_bot.Base.{
  ℕ, zero, suc, ◌+◌, ◌≤◌, ◌≡◌, ◌≢◌, ◌⊎◌, refl, inl, inr, false, Option, none, some, List, [], ◌∷◌,
  length, max, arith, All, Bool-cases,
}
use realtime_finance_bot.Python.Values.{Error, value_error, external_error}
use realtime_finance_bot.Ingest.Models.{Trade}
use realtime_finance_bot.Devlab.Stream.{
  Polled, no_message, message_error, undecodable, decoded, Round, Ending, running, returned, raised,
  Tailed, ends, after_wait, is_full, wait_at, after_poll, tail_rounds, deadline_of, tail,
}

-- No more than `limit` records besides those seen.
abbrev pub IsWithin : Option ℕ → ℕ → List Trade → Type 0
IsWithin none seen yielded = Unit
IsWithin (some limit) seen yielded = seen + length yielded ≤ max limit seen

-- A poll that may not outlast the deadline.
abbrev pub EndsBy : Option ℕ → ℕ × ℕ → Type 0
EndsBy none poll = Unit
EndsBy (some deadline) (now, wait) = now + wait ≤ deadline

-- Some round starts at the deadline or later.
abbrev pub IsReached : Option ℕ → List Round → Type 0
IsReached none rounds = ⊥
IsReached (some deadline) [] = ⊥
IsReached (some deadline) (round ∷ rounds) =
    (deadline ≤ round.now) ⊎ IsReached (some deadline) rounds

abbrev pub IsBounded : Option ℕ → Option ℕ → ℕ → List Round → Tailed → Type 0
IsBounded limit deadline seen rounds t =
    IsWithin limit seen t.yielded
    × All (EndsBy deadline) t.waits
    × (IsReached deadline rounds → t.ending ≢ running)

IsWithin-none : (limit : Option ℕ) (seen : ℕ) → IsWithin limit seen []
IsWithin-none none seen = tt
IsWithin-none (some limit) seen = omega arith

IsWithin-cons :
    (limit : Option ℕ) (seen : ℕ) (r : Trade) (yielded : List Trade)
    → is_full limit seen ≡ false
    → IsWithin limit (suc seen) yielded
    → IsWithin limit seen (r ∷ yielded)
unfolding is_full
IsWithin-cons none seen r yielded h k = tt
IsWithin-cons (some limit) seen r yielded h k = ground arith

wait_at-EndsBy :
    (poll_timeout : ℕ) (deadline : Option ℕ) (now wait : ℕ)
    → wait_at poll_timeout deadline now ≡ some wait
    → EndsBy deadline (now, wait)
unfolding wait_at
wait_at-EndsBy poll_timeout none now wait h = tt
wait_at-EndsBy poll_timeout (some deadline) now wait h = ground arith

IsReached-later :
    (poll_timeout : ℕ) (deadline : Option ℕ) (round : Round) (rounds : List Round) (wait : ℕ)
    → wait_at poll_timeout deadline round.now ≡ some wait
    → IsReached deadline (round ∷ rounds)
    → IsReached deadline rounds
unfolding wait_at
IsReached-later poll_timeout none round rounds wait h r = r
IsReached-later poll_timeout (some deadline) round rounds wait h (inl late) = absurd (ground arith)
IsReached-later poll_timeout (some deadline) round rounds wait h (inr r) = r

returned_running : ¬ (returned ≡ running)
returned_running e = ground arith

raised_running : {e : Error} → ¬ (raised e ≡ running)
raised_running h = ground arith

module _ (poll_timeout : ℕ) (limit deadline : Option ℕ) where
  IsBounded-ends :
      (seen : ℕ) (rounds : List Round) (ending : Ending)
      → ending ≢ running
      → IsBounded limit deadline seen rounds (ends ending)
  IsBounded-ends seen rounds ending h = (IsWithin-none limit seen, tt, λ _. h)

  IsBounded-after_poll :
      (seen now wait : ℕ) (rounds : List Round) (again : ℕ → Tailed) (polled : Polled)
      → is_full limit seen ≡ false
      → ((seen' : ℕ) → IsBounded limit deadline seen' rounds (again seen'))
      → IsBounded limit deadline seen rounds
          (after_poll poll_timeout limit deadline again seen polled)
  unfolding after_poll
  IsBounded-after_poll seen now wait rounds again no_message h ih = ih seen
  IsBounded-after_poll seen now wait rounds again message_error h ih =
      IsBounded-ends seen rounds (raised external_error) raised_running
  IsBounded-after_poll seen now wait rounds again undecodable h ih =
      IsBounded-ends seen rounds (raised value_error) raised_running
  IsBounded-after_poll seen now wait rounds again (decoded r) h ih =
      let (within, waits, ended) = ih (suc seen) in
      (IsWithin-cons limit seen r (again (suc seen)).yielded h within, waits, ended)

  IsBounded-wait :
      (seen : ℕ) (round : Round) (rounds : List Round) (o : Option ℕ)
      → is_full limit seen ≡ false
      → ((seen' : ℕ)
          → IsBounded limit deadline seen' rounds
              (tail_rounds poll_timeout limit deadline rounds seen'))
      → wait_at poll_timeout deadline round.now ≡ o
      → IsBounded limit deadline seen (round ∷ rounds) (elim o [
        | none ↦ ends returned
        | some wait ↦ after_wait round.now wait (
            after_poll poll_timeout limit deadline
              (tail_rounds poll_timeout limit deadline rounds)
              seen
              round.polled)
      ])
  IsBounded-wait seen round rounds none h ih e =
      IsBounded-ends seen (round ∷ rounds) returned returned_running
  IsBounded-wait seen round rounds (some wait) h ih e =
      let (within, waits, ended) =
        IsBounded-after_poll seen round.now wait rounds
          (tail_rounds poll_timeout limit deadline rounds) round.polled h ih in
      (
        within,
        (wait_at-EndsBy poll_timeout deadline round.now wait e, waits),
        λ reached. ended (IsReached-later poll_timeout deadline round rounds wait e reached),
      )

  tail_rounds-IsBounded :
      (rounds : List Round) (seen : ℕ)
      → IsBounded limit deadline seen rounds (tail_rounds poll_timeout limit deadline rounds seen)
  unfolding tail_rounds
  tail_rounds-IsBounded [] seen = (IsWithin-none limit seen, tt, λ r. nothing deadline r)
    where
      nothing : (d : Option ℕ) → IsReached d [] → running ≢ running
      nothing none r = absurd r
      nothing (some d) r = absurd r
  tail_rounds-IsBounded (round ∷ rounds) seen = elim (Bool-cases (is_full limit seen)) [
    | inl full ↦ rw full (IsBounded-ends seen (round ∷ rounds) returned returned_running)
    | inr more ↦
        rw more (IsBounded-wait seen round rounds _ more (tail_rounds-IsBounded rounds) refl)
  ]

-- A tail yields at most `limit` records, lets no poll wait beyond the deadline, and has come to its
-- end, by a return or by an exception, once some round starts at the deadline or after it.
pub tail-IsBounded :
    (poll_timeout : ℕ) (limit seconds : Option ℕ) (started : ℕ) (rounds : List Round)
    → IsBounded limit
        (deadline_of started seconds)
        0
        rounds
        (tail poll_timeout limit seconds started rounds)
unfolding tail deadline_of
tail-IsBounded poll_timeout none none started rounds =
    IsBounded-ends poll_timeout none none 0 rounds (raised value_error) raised_running
tail-IsBounded poll_timeout none (some seconds) started rounds =
    tail_rounds-IsBounded poll_timeout none (some (started + seconds)) rounds 0
tail-IsBounded poll_timeout (some zero) seconds started rounds =
    IsBounded-ends poll_timeout (some zero) (deadline_of started seconds) 0 rounds
      (raised value_error) raised_running
tail-IsBounded poll_timeout (some (suc n)) none started rounds =
    tail_rounds-IsBounded poll_timeout (some (suc n)) none rounds 0
tail-IsBounded poll_timeout (some (suc n)) (some seconds) started rounds =
    tail_rounds-IsBounded poll_timeout (some (suc n)) (some (started + seconds)) rounds 0
