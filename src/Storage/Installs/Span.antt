-- ===== src/Storage/Installs/Span.antt =====
-- The first and the last time that an install was seen.
use argvio.Prelude.{
  ◌≡◌, refl, ap, ◌∙◌, ◌⊎◌, inl, inr, Option, none, some, List, [], ◌∷◌, All, arith, if◌then◌else◌,
  subst, some-eq-some, if_of_true, if_of_false, Bool-cases, IsMember,
}
use argvio.Prelude.Int.{ℤ, ltb_ℤ, ◌≤ℤ◌}
use argvio.Prelude.Sort.{sort_by, IsMember-sort_by, sorted_IsMember, All-IsMember, member_All}
use argvio.Storage.Installs.{
  VersionChange, new_install, at_before, plan_sorted, plan_install, InstallState, InstallEvent,
  track_first, track_last, track_method, track_command, track_event, track_events,
}

pub first_seen-track_event :
    (st : InstallState) (e : InstallEvent)
    → (track_event st e).first_seen ≡ (if ltb_ℤ e.at st.first_seen then e.at else st.first_seen)
unfolding track_event track_first track_last track_method track_command
first_seen-track_event st e = ground arith

pub last_seen-track_event :
    (st : InstallState) (e : InstallEvent)
    → (track_event st e).last_seen ≡ (if ltb_ℤ e.at st.last_seen then st.last_seen else e.at)
unfolding track_event track_first track_last track_method track_command
last_seen-track_event st e = ground arith

-- The time is that of the row, or of one of the events.
abbrev pub FirstOf : Option InstallState → List InstallEvent → ℤ → Type 0
FirstOf none events t = (e : InstallEvent) × IsMember e events × (t ≡ e.at)
FirstOf (some st) events t =
    (t ≡ st.first_seen) ⊎ ((e : InstallEvent) × IsMember e events × (t ≡ e.at))

abbrev pub LastOf : Option InstallState → List InstallEvent → ℤ → Type 0
LastOf none events t = (e : InstallEvent) × IsMember e events × (t ≡ e.at)
LastOf (some st) events t =
    (t ≡ st.last_seen) ⊎ ((e : InstallEvent) × IsMember e events × (t ≡ e.at))

abbrev pub Widens : InstallState → Option InstallState → Type 0
Widens next none = Unit
Widens next (some st) = (next.first_seen ≤ℤ st.first_seen) × (st.last_seen ≤ℤ next.last_seen)

-- From the earliest to the latest time of the events and of the row that was there.
pub record IsSpan (existing : Option InstallState) (events : List InstallEvent)
    (next : InstallState) : Type 0 where
  pub first : FirstOf existing events next.first_seen
  pub last : LastOf existing events next.last_seen
  pub widens : Widens next existing
  pub covers : All (λ e. (next.first_seen ≤ℤ e.at) × (e.at ≤ℤ next.last_seen)) events

track_event-Widens : (st : InstallState) (e : InstallEvent) → Widens (track_event st e) (some st)
track_event-Widens st e =
    (ground (arith, first_seen-track_event st e), ground (arith, last_seen-track_event st e))

track_event_covers :
    (st : InstallState) (e : InstallEvent)
    → ((track_event st e).first_seen ≤ℤ e.at) × (e.at ≤ℤ (track_event st e).last_seen)
track_event_covers st e =
    (ground (arith, first_seen-track_event st e), ground (arith, last_seen-track_event st e))

first_at :
    (st : InstallState) (e : InstallEvent)
    → ((track_event st e).first_seen ≡ st.first_seen) ⊎ ((track_event st e).first_seen ≡ e.at)
first_at st e = elim (Bool-cases (ltb_ℤ e.at st.first_seen)) [
  | inl b ↦ inr (first_seen-track_event st e ∙ if_of_true _ _ _ b)
  | inr b ↦ inl (first_seen-track_event st e ∙ if_of_false _ _ _ b)
]

last_at :
    (st : InstallState) (e : InstallEvent)
    → ((track_event st e).last_seen ≡ st.last_seen) ⊎ ((track_event st e).last_seen ≡ e.at)
last_at st e = elim (Bool-cases (ltb_ℤ e.at st.last_seen)) [
  | inl b ↦ inl (last_seen-track_event st e ∙ if_of_true _ _ _ b)
  | inr b ↦ inr (last_seen-track_event st e ∙ if_of_false _ _ _ b)
]

-- An end that is the row's or an event's, one event earlier.
add_event :
    (start start' t : ℤ) (e : InstallEvent) (events : List InstallEvent)
    → (start' ≡ start) ⊎ (start' ≡ e.at)
    → (t ≡ start') ⊎ ((d : InstallEvent) × IsMember d events × (t ≡ d.at))
    → (t ≡ start) ⊎ ((d : InstallEvent) × IsMember d (e ∷ events) × (t ≡ d.at))
add_event start start' t e events step (inr (d, inside, same)) = inr (d, inr inside, same)
add_event start start' t e events (inl kept) (inl same) = inl (same ∙ kept)
add_event start start' t e events (inr moved) (inl same) = inr (e, inl refl, same ∙ moved)

track_events-IsSpan :
    (st : InstallState) (events : List InstallEvent)
    → IsSpan (some st) events (track_events st events).0
unfolding track_events
track_events-IsSpan st [] = record {
  first = inl refl;
  last = inl refl;
  widens = (omega arith, omega arith);
  covers = tt;
}
track_events-IsSpan st (e ∷ events) =
    let rest = track_events-IsSpan (track_event st e) events in
    let wide = track_event-Widens st e in
    let here = track_event_covers st e in
    record {
      first =
          add_event st.first_seen (track_event st e).first_seen _ e events (first_at st e)
            rest.first;
      last =
          add_event st.last_seen (track_event st e).last_seen _ e events (last_at st e) rest.last;
      widens = (omega (arith, rest.widens.0, wide.0), omega (arith, rest.widens.1, wide.1));
      covers = (
        (omega (arith, rest.widens.0, here.0), omega (arith, rest.widens.1, here.1)),
        rest.covers,
      );
    }

of_event :
    (t : ℤ) (e : InstallEvent) (events : List InstallEvent)
    → (t ≡ e.at) ⊎ ((d : InstallEvent) × IsMember d (e ∷ events) × (t ≡ d.at))
    → (d : InstallEvent) × IsMember d (e ∷ events) × (t ≡ d.at)
of_event t e events (inl same) = (e, inl refl, same)
of_event t e events (inr found) = found

plan_sorted-IsSpan :
    (existing : Option InstallState) (sorted : List InstallEvent) (next : InstallState)
    (changes : List VersionChange)
    → plan_sorted existing sorted ≡ some (next, changes)
    → IsSpan existing sorted next
plan_sorted-IsSpan (some st) sorted next changes h =
    subst (IsSpan (some st) sorted) (ap (λ p. p.0) (some-eq-some h)) (track_events-IsSpan st sorted)
plan_sorted-IsSpan none [] next changes h = cc h
plan_sorted-IsSpan none (e ∷ sorted) next changes h =
    let span = track_events-IsSpan (new_install e) (e ∷ sorted) in
    subst (IsSpan none (e ∷ sorted)) (ap (λ p. p.0) (some-eq-some h)) (record {
      first = of_event _ e sorted span.first;
      last = of_event _ e sorted span.last;
      widens = tt;
      covers = span.covers;
    })

unsorted :
    (t : ℤ) (events : List InstallEvent)
    → (e : InstallEvent) × IsMember e (sort_by at_before events) × (t ≡ e.at)
    → (e : InstallEvent) × IsMember e events × (t ≡ e.at)
unsorted t events (e, inside, same) = (e, sorted_IsMember at_before e events inside, same)

unsorted_or :
    (A : Type 0) (t : ℤ) (events : List InstallEvent)
    → A ⊎ ((e : InstallEvent) × IsMember e (sort_by at_before events) × (t ≡ e.at))
    → A ⊎ ((e : InstallEvent) × IsMember e events × (t ≡ e.at))
unsorted_or A t events (inl a) = inl a
unsorted_or A t events (inr found) = inr (unsorted t events found)

sorted_first :
    (existing : Option InstallState) (events : List InstallEvent) (t : ℤ)
    → FirstOf existing (sort_by at_before events) t
    → FirstOf existing events t
sorted_first none events t h = unsorted t events h
sorted_first (some st) events t h = unsorted_or (t ≡ st.first_seen) t events h

sorted_last :
    (existing : Option InstallState) (events : List InstallEvent) (t : ℤ)
    → LastOf existing (sort_by at_before events) t
    → LastOf existing events t
sorted_last none events t h = unsorted t events h
sorted_last (some st) events t h = unsorted_or (t ≡ st.last_seen) t events h

-- planInstall widens the time in which an install was seen to just cover the events, in whatever order they
-- come: the first and the last time are the least and the greatest of the events' and the row's.
pub plan_install-IsSpan :
    (existing : Option InstallState) (events : List InstallEvent) (next : InstallState)
    (changes : List VersionChange)
    → plan_install existing events ≡ some (next, changes)
    → IsSpan existing events next
unfolding plan_install
plan_install-IsSpan existing events next changes h =
    let span = plan_sorted-IsSpan existing (sort_by at_before events) next changes h in
    record {
      first = sorted_first existing events next.first_seen span.first;
      last = sorted_last existing events next.last_seen span.last;
      widens = span.widens;
      covers = All-IsMember _ events (λ e inside.
          member_All _ e (sort_by at_before events) span.covers
            (IsMember-sort_by at_before e events inside));
    }
