-- ===== src/Storage/Installs/Changes.antt =====
-- internal/storage/installs.go: the version changes that a plan reports.
use Prim.Native.Nat.{Ordering}
use argvio.Prelude.{
  Str, str_eq, str_eq_iff, ◌≡◌, ◌≢◌, refl, sym, ap, subst, ◌∙◌, ◌⊎◌, inl, inr, Bool, true, false,
  not, ◌&&◌, Option, none, some, List, [], ◌∷◌, ◌++◌, arith, Bool-cases, some-eq-some,
  if◌then◌else◌, if_of_true,
}
use argvio.Prelude.Int.{ℤ, ltb_ℤ}
use argvio.Prelude.Sort.{sort_by}
use argvio.Storage.Versions.{compare_versions}
use argvio.Storage.Installs.{
  InstallState, InstallEvent, VersionChange, change_by, change_between, change_of, track_event,
  track_first, track_last, track_method, track_command, track_events, plan_sorted, plan_install,
  new_install, at_before,
}
use argvio.Storage.Installs.Span.{last_seen-track_event}

abbrev direction_of : Bool → Ordering
direction_of true = Ordering.lt
direction_of false = Ordering.gt

-- What is known of an install at some point: when it was last seen, and the version reported last.
pub record Seen : Type 0 where
  pub at : Option ℤ
  pub version : Option Str

abbrev newest_version : Option Str → Option Str → Option Str
newest_version none old = old
newest_version (some v) old = some v

abbrev is_before : ℤ → Option ℤ → Bool
is_before at none = false
is_before at (some seen) = ltb_ℤ at seen

-- An event that is not older than what was seen brings its time, and its version if it reports one.
abbrev pub see : Seen → InstallEvent → Seen
see seen e = record {
  at = if is_before e.at seen.at then seen.at else some e.at;
  version = if is_before e.at seen.at then seen.version else newest_version e.version seen.version;
}

-- What the stored row says, and nothing where there is no row.
abbrev pub seen_in : Option InstallState → Seen
seen_in none = record { at = none; version = none }
seen_in (some st) = record { at = some st.last_seen; version = st.last_version }

abbrev IsLater : Option ℤ → ℤ → Type 0
IsLater none at = Unit
IsLater (some seen) at = ltb_ℤ seen at ≡ true

-- A change between what was reported before and what is reported at this time.
abbrev IsChange : Option ℤ → Option Str → ℤ → Option Str → VersionChange → Type 0
IsChange seen old at new c =
    (old ≡ some c.from_version)
    × (new ≡ some c.to_version)
    × (c.from_version ≢ c.to_version)
    × (c.at ≡ at)
    × IsLater seen at
    × (compare_versions c.from_version c.to_version ≡ some (direction_of c.upgrade))

-- The event changes the version from the one that was last seen.
abbrev pub Shows : Seen → InstallEvent → VersionChange → Type 0
Shows seen e c = IsChange seen.at seen.version e.at e.version c

-- One change for each event that shows one, in the order of the events, and no other.
abbrev pub Reveals : Seen → List InstallEvent → List VersionChange → Type 0
Reveals seen [] changes = changes ≡ []
Reveals seen (e ∷ later) changes =
    ((c : VersionChange) × (rest : List VersionChange) × (changes ≡ c ∷ rest)
      × Shows seen e c
      × Reveals (see seen e) later rest)
    ⊎ ((¬ ((c : VersionChange) × Shows seen e c)) × Reveals (see seen e) later changes)

-- A change is reported where there is one, and nothing where there is none.
abbrev Reports : ℤ → Option Str → ℤ → Option Str → List VersionChange → Type 0
Reports last_seen old at new changes =
    ((c : VersionChange) × (changes ≡ c ∷ []) × IsChange (some last_seen) old at new c)
    ⊎ ((changes ≡ []) × (¬ ((c : VersionChange) × IsChange (some last_seen) old at new c)))

change_by-Reports :
    (last_seen at : ℤ) (v w : Str) (way : Option Ordering)
    → compare_versions v w ≡ way
    → v ≢ w
    → ltb_ℤ last_seen at ≡ true
    → Reports last_seen (some v) at (some w) (change_by at v w way)
change_by-Reports last_seen at v w none h d newer =
    inr (refl, λ (c, (f, t, _, _, _, k)). undirected c f t k)
  where
    undirected :
        (c : VersionChange)
        → some v ≡ some c.from_version
        → some w ≡ some c.to_version
        → compare_versions c.from_version c.to_version ≡ some (direction_of c.upgrade)
        → ⊥
    undirected c f t k = cc (h, some-eq-some f, some-eq-some t, k)
change_by-Reports last_seen at v w (some Ordering.eq) h d newer =
    inr (refl, λ (c, (f, t, _, _, _, k)). undirected c f t c.upgrade k)
  where
    undirected :
        (c : VersionChange)
        → some v ≡ some c.from_version
        → some w ≡ some c.to_version
        → (b : Bool) → compare_versions c.from_version c.to_version ≡ some (direction_of b)
        → ⊥
    undirected c f t true k = cc (h, some-eq-some f, some-eq-some t, k)
    undirected c f t false k = cc (h, some-eq-some f, some-eq-some t, k)
change_by-Reports last_seen at v w (some Ordering.lt) h d newer = inl (
  record { at = at; from_version = v; to_version = w; upgrade = true },
  refl,
  (refl, refl, d, refl, newer, h),
)
change_by-Reports last_seen at v w (some Ordering.gt) h d newer = inl (
  record { at = at; from_version = v; to_version = w; upgrade = false },
  refl,
  (refl, refl, d, refl, newer, h),
)

change_between-Reports :
    (last_seen at : ℤ) (old new : Option Str)
    → Reports last_seen old at new (change_between last_seen at old new)
change_between-Reports last_seen at none new = inr (refl, λ (c, (f, _, _, _, _, _)). cc f)
change_between-Reports last_seen at (some v) none = inr (refl, λ (c, (f, t, _, _, _, _)). cc t)
change_between-Reports last_seen at (some v) (some w) = elim (Bool-cases (str_eq v w)) [
  | inl same ↦ rw same (
      inr (
        refl,
        λ (c, (f, t, d, _, _, _)).
            d (sym (some-eq-some f) ∙ (str_eq_iff v w).0 same ∙ some-eq-some t),
      ))
  | inr other ↦ elim (Bool-cases (ltb_ℤ last_seen at)) [
    | inl newer ↦
        let both : (not (str_eq v w) && ltb_ℤ last_seen at) ≡ true = rw (other, newer) refl in
        subst (Reports last_seen (some v) at (some w)) (sym (if_of_true _ _ _ both)) (
          change_by-Reports last_seen at v w (compare_versions v w) refl
            (λ e. cc (other, (str_eq_iff v w).1 e)) newer)
    | inr old ↦ rw (other, old) (inr (refl, λ (c, (f, t, d, a, newer, _)). cc newer))
  ]
]

last_version-track_event :
    (st : InstallState) (e : InstallEvent)
    → (track_event st e).last_version ≡ (
        if ltb_ℤ e.at st.last_seen
        then st.last_version
        else newest_version e.version st.last_version)
unfolding track_event track_first track_last track_method track_command
last_version-track_event st e = ground arith

-- The row that an event leaves knows what was seen.
see-track_event :
    (st : InstallState) (e : InstallEvent)
    → see (seen_in (some st)) e ≡ seen_in (some (track_event st e))
see-track_event st e =
    let time : (if ltb_ℤ e.at st.last_seen then some st.last_seen else some e.at)
        ≡ some (track_event st e).last_seen =
      ground (arith, last_seen-track_event st e) in
    λ i. record { at = time i; version = sym (last_version-track_event st e) i }

track_events-Reveals :
    (st : InstallState) (events : List InstallEvent)
    → Reveals (seen_in (some st)) events (track_events st events).1
unfolding track_events change_of
track_events-Reveals st [] = refl
track_events-Reveals st (e ∷ later) =
    let known = see-track_event st e in
    let later_changes = (track_events (track_event st e) later).1 in
    let rest : Reveals (see (seen_in (some st)) e) later later_changes =
      subst (λ seen. Reveals seen later later_changes) (sym known)
        (track_events-Reveals (track_event st e) later) in
    elim (change_between-Reports st.last_seen e.at st.last_version e.version) [
      | inl (c, one, shown) ↦
          inl (c, later_changes, ap (λ cs. cs ++ later_changes) one, shown, rest)
      | inr (nothing, silent) ↦ inr (
        silent,
        subst (λ cs. Reveals (see (seen_in (some st)) e) later (cs ++ later_changes)) (sym nothing)
            rest,
      )
    ]

newest_version_alone : (v : Option Str) → newest_version v none ≡ newest_version v v
newest_version_alone none = refl
newest_version_alone (some v) = refl

not_later : (t : ℤ) → ltb_ℤ t t ≡ true → ⊥
not_later t h = ground arith

-- The first event of a new install is where the row starts: it shows no change.
first_seen-new_install :
    (e : InstallEvent) → see (seen_in none) e ≡ see (seen_in (some (new_install e))) e
first_seen-new_install e =
    let time : some e.at ≡ (if ltb_ℤ e.at e.at then some e.at else some e.at) = ground arith in
    let version : newest_version e.version none
        ≡ (if ltb_ℤ e.at e.at then e.version else newest_version e.version e.version) =
      ground (arith, newest_version_alone e.version) in
    λ i. record { at = time i; version = version i }

plan_sorted-Reveals :
    (existing : Option InstallState) (sorted : List InstallEvent) (next : InstallState)
    (changes : List VersionChange)
    → plan_sorted existing sorted ≡ some (next, changes)
    → Reveals (seen_in existing) sorted changes
plan_sorted-Reveals (some st) sorted next changes h =
    subst (Reveals (seen_in (some st)) sorted) (ap (λ p. p.1) (some-eq-some h))
      (track_events-Reveals st sorted)
plan_sorted-Reveals none [] next changes h = cc h
plan_sorted-Reveals none (e ∷ sorted) next changes h =
    subst (Reveals (seen_in none) (e ∷ sorted)) (ap (λ p. p.1) (some-eq-some h))
      (elim (track_events-Reveals (new_install e) (e ∷ sorted)) [
        | inl (c, rest, one, shown, more) ↦ absurd (not_later e.at shown.4)
        | inr (silent, more) ↦ inr (
          λ (c, (f, t, d, a, newer, k)). cc f,
          subst (λ seen. Reveals seen sorted (track_events (new_install e) (e ∷ sorted)).1)
              (sym (first_seen-new_install e)) more,
        )
      ])

-- planInstall reports exactly the version changes that its events show. In the order of time, an event shows a
-- change when it is later than all that was seen, which is the stored row and the events before it, and
-- reports a version that the order of versions puts before or after the one that was last seen: the
-- change has the event's time, goes from the version that was last seen to the event's, and has their
-- direction. The first event of a new install shows none.
pub plan_install-changes :
    (existing : Option InstallState) (events : List InstallEvent) (next : InstallState)
    (changes : List VersionChange)
    → plan_install existing events ≡ some (next, changes)
    → Reveals (seen_in existing) (sort_by (λ d e. ltb_ℤ d.at e.at) events) changes
unfolding plan_install
plan_install-changes existing events = plan_sorted-Reveals existing (sort_by at_before events)
