-- ===== src/Config/Files/Debounce.antt =====
-- config/source.go: the times at which the loop that watches a file calls back.
use microlib.Prelude.{
  ℕ, ◌+◌, ◌-◌, ◌≤◌, ◌<◌, Bool, true, false, not, Option, none, some, List, [], ◌∷◌, ◌≡◌, refl,
  text_beq, ltb, All, Any, ◌⊎◌, inl, inr, if◌then◌else◌, ◌&&◌, if-rule, arith,
}
use microlib.Text.{Text}
use microlib.Config.Files.{base, Event, debounce_interval, watch_loop}

-- An event that says that the file was written.
abbrev pub is_ours : Text → Event → Bool
is_ours path event = text_beq (base event.name) (base path) && event.is_write

-- Each time is the interval or more behind the one before it.
abbrev pub IsSpaced : Option ℕ → List ℕ → Type 0
IsSpaced last [] = Unit
IsSpaced none (t ∷ ts) = IsSpaced (some t) ts
IsSpaced (some last) (t ∷ ts) = (last + debounce_interval ≤ t) × IsSpaced (some t) ts

IsSpaced-if :
    (last : ℕ) (b : Bool) (t : ℕ) (same rest : List ℕ)
    → IsSpaced (some last) same
    → IsSpaced (some t) rest
    → (b ≡ false → last + debounce_interval ≤ t)
    → IsSpaced (some last) (if b then same else t ∷ rest)
IsSpaced-if last true t same rest p q h = p
IsSpaced-if last false t same rest p q h = (h refl, q)

-- Two callbacks are never closer than the interval, whatever the events and their times.
pub watch_loop-IsSpaced :
    (path : Text) (last : Option ℕ) (events : List Event)
    → IsSpaced last (watch_loop path last events)
unfolding watch_loop
watch_loop-IsSpaced path last [] = tt
watch_loop-IsSpaced path none (event ∷ events) =
    let same = watch_loop-IsSpaced path none events in
    if-rule (IsSpaced none) (not (text_beq (base event.name) (base path))) _ _ (λ _. same)
      (λ _.
        if-rule (IsSpaced none) (not event.is_write) _ _ (λ _. same)
          (λ _. watch_loop-IsSpaced path (some event.time) events))
watch_loop-IsSpaced path (some last) (event ∷ events) =
    let same = watch_loop-IsSpaced path (some last) events in
    if-rule (IsSpaced (some last)) (not (text_beq (base event.name) (base path))) _ _ (λ _. same)
      (λ _.
        if-rule (IsSpaced (some last)) (not event.is_write) _ _ (λ _. same)
          (λ _.
            if-rule (IsSpaced (some last)) (ltb (event.time - last) debounce_interval) _ _
              (λ _. same)
              (λ late. (ground (arith, late), watch_loop-IsSpaced path (some event.time) events))))

-- The times are in order, none before `from`.
abbrev pub IsOrdered : ℕ → List Event → Type 0
IsOrdered from [] = Unit
IsOrdered from (event ∷ events) = (from ≤ event.time) × IsOrdered event.time events

abbrev start_of : Option ℕ → ℕ
start_of none = 0
start_of (some last) = last

-- A callback at most the interval before a time.
abbrev IsNear : ℕ → ℕ → Type 0
IsNear t c = (c ≤ t) × (t < c + debounce_interval)

abbrev pub before_it : Option ℕ → List ℕ → List ℕ
before_it none ts = ts
before_it (some last) ts = last ∷ ts

abbrev pub IsCovered : Text → List ℕ → Event → Type 0
IsCovered path calls event = (is_ours path event ≡ false) ⊎ Any (IsNear event.time) calls

IsCovered-later :
    (path : Text) (last : Option ℕ) (t : ℕ) (ts : List ℕ) (events : List Event)
    → All (IsCovered path (t ∷ ts)) events
    → All (IsCovered path (before_it last (t ∷ ts))) events
IsCovered-later path none t ts events h = h
IsCovered-later path (some last) t ts [] h = tt
IsCovered-later path (some last) t ts (event ∷ events) h = (
  (elim h.0 [ inl other ↦ inl other | inr near ↦ inr (inr near) ]),
  IsCovered-later path (some last) t ts events h.1,
)

IsOrdered-from : (a b : ℕ) (events : List Event) → a ≤ b → IsOrdered b events → IsOrdered a events
IsOrdered-from a b [] h ordered = tt
IsOrdered-from a b (event ∷ events) h ordered = (omega (arith, h, ordered.0), ordered.1)

-- With an event that calls back, at its time.
IsCovered-now :
    (path : Text) (last : Option ℕ) (event : Event) (ts : List ℕ) (events : List Event)
    → All (IsCovered path (event.time ∷ ts)) events
    → All (IsCovered path (before_it last (event.time ∷ ts))) (event ∷ events)
IsCovered-now path last event ts events h =
    IsCovered-later path last event.time ts (event ∷ events)
      (inr (inl (omega arith, omega arith)), h)

-- If the clock does not run backwards, each event that says that the file was written has a callback
-- less than the interval before it, or at its time.
pub watch_loop-IsCovered :
    (path : Text) (last : Option ℕ) (events : List Event)
    → IsOrdered (start_of last) events
    → All (IsCovered path (before_it last (watch_loop path last events))) events
unfolding watch_loop
watch_loop-IsCovered path last [] ordered = tt
watch_loop-IsCovered path none (event ∷ events) ordered =
    let P = λ (ts : List ℕ). All (IsCovered path ts) (event ∷ events) in
    let same =
      watch_loop-IsCovered path none events
        (IsOrdered-from 0 event.time events (omega arith) ordered.1) in
    if-rule P (not (text_beq (base event.name) (base path))) _ _
      (λ other. (inl (ground (arith, other)), same))
      (λ _.
        if-rule P (not event.is_write) _ _ (λ read. (inl (ground (arith, read)), same))
          (λ _.
            IsCovered-now path none event (watch_loop path (some event.time) events) events
              (watch_loop-IsCovered path (some event.time) events ordered.1)))
watch_loop-IsCovered path (some last) (event ∷ events) ordered =
    let P = λ (ts : List ℕ). All (IsCovered path (last ∷ ts)) (event ∷ events) in
    let same =
      watch_loop-IsCovered path (some last) events
        (IsOrdered-from last event.time events ordered.0 ordered.1) in
    if-rule P (not (text_beq (base event.name) (base path))) _ _
      (λ other. (inl (ground (arith, other)), same))
      (λ _.
        if-rule P (not event.is_write) _ _ (λ read. (inl (ground (arith, read)), same))
          (λ _.
            if-rule P (ltb (event.time - last) debounce_interval) _ _
              (λ soon. (inr (inl (ordered.0, ground (arith, soon, ordered.0))), same))
              (λ late.
                IsCovered-now path (some last) event (watch_loop path (some event.time) events)
                  events (watch_loop-IsCovered path (some event.time) events ordered.1))))

-- Events that all come less than the interval behind the first.
abbrev IsBurst : Text → ℕ → List Event → Type 0
IsBurst path from [] = Unit
IsBurst path from (event ∷ events) =
    (event.time < from + debounce_interval) × IsBurst path from events

quiet :
    (path : Text) (from : ℕ) (events : List Event)
    → IsBurst path from events
    → watch_loop path (some from) events ≡ []
unfolding watch_loop
quiet path from [] burst = refl
quiet path from (event ∷ events) burst =
    let rest = quiet path from events burst.1 in
    let P = λ (ts : List ℕ). ts ≡ [] in
    if-rule P (not (text_beq (base event.name) (base path))) _ _ (λ _. rest)
      (λ _.
        if-rule P (not event.is_write) _ _ (λ _. rest)
          (λ _.
            if-rule P (ltb (event.time - from) debounce_interval) _ _ (λ _. rest)
              (λ late. absurd (ground (arith, late, burst.0)))))

-- A burst of writes calls back once, at the first of them, and not when the last one is done.
pub watch_loop_burst :
    (path : Text) (event : Event) (events : List Event)
    → is_ours path event ≡ true
    → IsBurst path event.time events
    → watch_loop path none (event ∷ events) ≡ event.time ∷ []
unfolding watch_loop
watch_loop_burst path event events ours burst =
    let rest = quiet path event.time events burst in ground (arith, rest)
