-- ===== src/Storage/Installs/Merge.antt =====
-- The upsert writes the planned row.
use argvio.Prelude.{
  str_eq, ◌≡◌, refl, sym, ap, subst, inl, inr, Bool, true, false, Option, some, List, [], ◌∷◌,
  if◌then◌else◌, Bool-cases, if_of_true, if_of_false, some-eq-some,
}
use argvio.Prelude.Int.{ℤ, ltb_ℤ}
use argvio.Prelude.Sort.{sort_by}
use argvio.Storage.Installs.{
  is_success, InstallState, InstallEvent, earliest, track_first, track_last, track_method,
  track_command, track_event, track_events, least_known, upsert_install, plan_install, at_before,
  VersionChange,
}
use argvio.Storage.Installs.Later.{
  IsLater, IsLater-same, IsLater-trans, upsert-IsLater, Keeps-new, Keeps-same, known_same,
  known_earliest, not_before_itself,
}

track_first-IsLater : (st : InstallState) (e : InstallEvent) → IsLater st (track_first st e)
unfolding track_first
track_first-IsLater st e = elim (Bool-cases (ltb_ℤ e.at st.first_seen)) [
  | inl earlier ↦ subst (IsLater st) (sym (if_of_true _ _ _ earlier)) (record {
    first = inr (earlier, Keeps-new st.first_version e.version);
    last = not_before_itself st.last_seen;
    version = Keeps-same st.last_version;
    os = Keeps-same st.last_os;
    arch = Keeps-same st.last_arch;
    method = Keeps-same st.install_method;
    command = known_same st.first_command_at;
    success = known_same st.first_success_at;
  })
  | inr late ↦ subst (IsLater st) (sym (if_of_false _ _ _ late)) (IsLater-same st)
]

track_last-IsLater : (st : InstallState) (e : InstallEvent) → IsLater st (track_last st e)
unfolding track_last
track_last-IsLater st e = elim (Bool-cases (ltb_ℤ e.at st.last_seen)) [
  | inl older ↦ subst (IsLater st) (sym (if_of_true _ _ _ older)) (IsLater-same st)
  | inr newer ↦ subst (IsLater st) (sym (if_of_false _ _ _ newer)) (record {
    first = inl (refl, refl);
    last = newer;
    version = Keeps-new st.last_version e.version;
    os = Keeps-new st.last_os e.os;
    arch = Keeps-new st.last_arch e.arch;
    method = Keeps-same st.install_method;
    command = known_same st.first_command_at;
    success = known_same st.first_success_at;
  })
]

track_method-IsLater : (st : InstallState) (e : InstallEvent) → IsLater st (track_method st e)
unfolding track_method
track_method-IsLater st e = elim (Bool-cases (str_eq e.install_meth [])) [
  | inl missing ↦ subst (IsLater st) (sym (if_of_true _ _ _ missing)) (IsLater-same st)
  | inr reported ↦ subst (IsLater st) (sym (if_of_false _ _ _ reported)) (record {
    first = inl (refl, refl);
    last = not_before_itself st.last_seen;
    version = Keeps-same st.last_version;
    os = Keeps-same st.last_os;
    arch = Keeps-same st.last_arch;
    method = refl;
    command = known_same st.first_command_at;
    success = known_same st.first_success_at;
  })
]

success_known :
    (b : Bool) (a : Option ℤ) (t : ℤ)
    → least_known a (if b then earliest a t else a) ≡ (if b then earliest a t else a)
success_known true a t = known_earliest a t
success_known false a t = known_same a

track_command-IsLater : (st : InstallState) (e : InstallEvent) → IsLater st (track_command st e)
unfolding track_command
track_command-IsLater st e = elim (Bool-cases e.completed) [
  | inl done ↦ subst (IsLater st) (sym (if_of_true _ _ _ done)) (record {
    first = inl (refl, refl);
    last = not_before_itself st.last_seen;
    version = Keeps-same st.last_version;
    os = Keeps-same st.last_os;
    arch = Keeps-same st.last_arch;
    method = Keeps-same st.install_method;
    command = known_earliest st.first_command_at e.at;
    success = success_known (is_success e.exit_code) st.first_success_at e.at;
  })
  | inr other ↦ subst (IsLater st) (sym (if_of_false _ _ _ other)) (IsLater-same st)
]

track_event-IsLater : (st : InstallState) (e : InstallEvent) → IsLater st (track_event st e)
unfolding track_event
track_event-IsLater st e =
    let first = track_first st e in
    let last = track_last first e in
    let method = track_method last e in
    IsLater-trans st first (track_command method e) (track_first-IsLater st e) (
      IsLater-trans first last (track_command method e) (track_last-IsLater first e) (
        IsLater-trans last method (track_command method e) (track_method-IsLater last e)
          (track_command-IsLater method e)))

track_events-IsLater :
    (st : InstallState) (events : List InstallEvent) → IsLater st (track_events st events).0
unfolding track_events
track_events-IsLater st [] = IsLater-same st
track_events-IsLater st (e ∷ events) =
    IsLater-trans st (track_event st e) (track_events (track_event st e) events).0
      (track_event-IsLater st e) (track_events-IsLater (track_event st e) events)

-- What the upsert merges into the row that planInstall read is what planInstall planned.
pub upsert_install-plan_install :
    (st next : InstallState) (events : List InstallEvent) (changes : List VersionChange)
    → plan_install (some st) events ≡ some (next, changes)
    → upsert_install st next ≡ next
unfolding plan_install
upsert_install-plan_install st next events changes h = upsert-IsLater st next (
    subst (IsLater st) (ap (λ p. p.0) (some-eq-some h))
      (track_events-IsLater st (sort_by at_before events)))
