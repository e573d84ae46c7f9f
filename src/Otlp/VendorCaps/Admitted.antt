-- ===== src/Otlp/VendorCaps/Admitted.antt =====
-- Names and labels of a capped row are admitted ones or `other`.
use argvio.Prelude.Sort.{IsMember-map}
use argvio.Prelude.{
  length, ◌==◌, IsMember, Result, ok, err, ok-injective, Str, str_eq, str_eq_refl, ℕ, ◌≡◌, refl,
  sym, ap, ◌∙◌, ◌⊎◌, inl, inr, Bool, true, false, not, ◌&&◌, List, [], ◌∷◌, member, arith,
  Bool-cases, subst, if_of_true, if_of_false,
}
use argvio.Prelude.Maps.{Map, insert, delete, lookup-insert, lookup-delete}
use argvio.Allowlist.{Value, str}
use argvio.Storage.Dims.{counter_other}
use argvio.Otlp.Catalog.{text_at, text_of}
use argvio.Otlp.VendorCaps.{
  VendorInstrument, CounterAdmission, CounterKey, MetricRow, count_key, count_rows_of,
  is_vendor_row, cap_row, admitted_rows, after_dims, cap_dim_values, cap_vendor_instrument,
  vendor_key, has_label, cap_attributes,
}

-- Either the name is admitted and the label is absent, `other` or admitted under it, or the name is `other`
-- and there is no label.
abbrev pub IsCapped : CounterAdmission → CounterKey → Type 0
IsCapped adm k =
    ((str_eq k.0 counter_other ≡ true) × (str_eq k.1 [] ≡ true))
    ⊎ ((member adm.names k.0 ≡ true)
        × ((str_eq k.1 [] ≡ true)
            ⊎ (str_eq k.1 counter_other ≡ true)
            ⊎ (has_label adm.labels k ≡ true)))

text_at-insert : (k : Str) (s : Str) (m : Map Value) → text_at k (insert k (str s) m) ≡ s
text_at-insert k s m = ap text_of (lookup-insert k k (str s) m ∙ if_of_true _ _ _ (str_eq_refl k))

text_at_other :
    (written read : Str) (s : Str) (m : Map Value)
    → str_eq written read ≡ false
    → text_at read (insert written (str s) m) ≡ text_at read m
text_at_other written read s m other =
    ap text_of (lookup-insert written read (str s) m ∙ if_of_false _ _ _ other)

text_at_deleted : (k : Str) (m : Map Value) → text_at k (delete k m) ≡ []
text_at_deleted k m = ap text_of (lookup-delete k k m ∙ if_of_true _ _ _ (str_eq_refl k))

text_at_kept :
    (k j : Str) (m : Map Value) → str_eq k j ≡ false → text_at j (delete k m) ≡ text_at j m
text_at_kept k j m other = ap text_of (lookup-delete k j m ∙ if_of_false _ _ _ other)

label_cases :
    (label : Str) (found : Bool)
    → (not (str_eq label []) && not (str_eq label counter_other) && not found) ≡ false
    → (str_eq label [] ≡ true) ⊎ (str_eq label counter_other ≡ true) ⊎ (found ≡ true)
label_cases label found h = elim (Bool-cases (str_eq label [])) [
  | inl e ↦ inl e
  | inr e ↦ elim (Bool-cases (str_eq label counter_other)) [
    | inl f ↦ inr (inl f)
    | inr f ↦ elim (Bool-cases found) [ inl g ↦ inr (inr g) | inr g ↦ cc (rw (e, f, g) at h) ]
  ]
]

module _ {State E : Type 0} (vendor : VendorInstrument State E) where
  by_texts :
      (adm : CounterAdmission) (a : Map Value) (name label : Str)
      → text_at vendor.name_attr a ≡ name
      → text_at vendor.label_attr a ≡ label
      → IsCapped adm (name, label)
      → IsCapped adm (vendor_key vendor a)
  unfolding vendor_key
  by_texts adm a name label n l h = subst (IsCapped adm) (λ i. (sym n i, sym l i)) h

  name_text : (a : Map Value) → text_at vendor.name_attr a ≡ (vendor_key vendor a).0
  unfolding vendor_key
  name_text a = refl

  pub cap_attributes-IsCapped :
      (adm : CounterAdmission) (a : Map Value)
      → str_eq vendor.label_attr vendor.name_attr ≡ false
      → IsCapped adm (vendor_key vendor (cap_attributes vendor adm a))
  unfolding cap_attributes
  cap_attributes-IsCapped adm a differ =
      let k = vendor_key vendor a in
      elim (Bool-cases (member adm.names k.0)) [
        | inr unknown ↦ rw unknown (
            by_texts adm _ counter_other []
              (text_at_kept vendor.label_attr vendor.name_attr
                  (insert vendor.name_attr (str counter_other) a) differ
                ∙ text_at-insert vendor.name_attr counter_other a)
              (text_at_deleted vendor.label_attr _)
              (inl (str_eq_refl counter_other, str_eq_refl [])))
        | inl known ↦ rw known (elim (Bool-cases (str_eq k.0 counter_other)) [
          | inl other ↦ rw other (
              by_texts adm _ k.0 []
                (text_at_kept vendor.label_attr vendor.name_attr a differ ∙ name_text a)
                (text_at_deleted vendor.label_attr a) (inl (other, str_eq_refl [])))
          | inr named ↦
              rw named
                (elim (Bool-cases (
                  not (str_eq k.1 [])
                  && not (str_eq k.1 counter_other)
                  && not (has_label adm.labels k))) [
                    | inl folds ↦ rw folds (
                        by_texts adm _ k.0 counter_other
                          (text_at_other vendor.label_attr vendor.name_attr counter_other a differ
                            ∙ name_text a)
                          (text_at-insert vendor.label_attr counter_other a)
                          (inr (known, inr (inl (str_eq_refl counter_other)))))
                    | inr kept ↦
                        rw kept (inr (known, label_cases k.1 (has_label adm.labels k) kept))
                  ])
        ])
      ]

  some_key :
      {K : Type 0} (eq : K → K → Bool) (k : K) (counts : List (K × ℕ))
      → (length (count_key eq k counts) == 0) ≡ false
  unfolding count_key
  some_key eq k [] = refl
  some_key eq k (entry ∷ counts) = elim (Bool-cases (eq entry.0 k)) [
    | inl e ↦ rw e (ground arith)
    | inr e ↦ rw e (ground arith)
  ]

  still_some :
      (rows : List MetricRow) (counts : List (CounterKey × ℕ))
      → (length counts == 0) ≡ false
      → (length (count_rows_of vendor rows counts) == 0) ≡ false
  unfolding count_rows_of
  still_some [] counts h = h
  still_some (r ∷ rows) counts h = elim (Bool-cases (is_vendor_row vendor r)) [
    | inl e ↦ rw e (still_some rows _ (some_key _ _ counts))
    | inr e ↦ rw e (still_some rows counts h)
  ]

  -- A row of the instrument is counted.
  counted :
      (rows : List MetricRow) (counts : List (CounterKey × ℕ)) (r : MetricRow)
      → IsMember r rows
      → is_vendor_row vendor r ≡ true
      → (length (count_rows_of vendor rows counts) == 0) ≡ false
  unfolding count_rows_of
  counted [] counts r inside e = absurd inside
  counted (s ∷ rows) counts r (inl same) e =
      let hit : is_vendor_row vendor s ≡ true = ap (is_vendor_row vendor) (sym same) ∙ e in
      rw hit (still_some rows _ (some_key _ _ counts))
  counted (s ∷ rows) counts r (inr later) e = counted rows _ r later e

  IsCapped-row :
      (adm : CounterAdmission) (s : MetricRow)
      → str_eq vendor.label_attr vendor.name_attr ≡ false
      → is_vendor_row vendor (cap_row vendor adm s) ≡ true
      → IsCapped adm (vendor_key vendor (cap_row vendor adm s).datapoint_attributes)
  unfolding cap_row
  IsCapped-row adm s differ e = elim (Bool-cases (is_vendor_row vendor s)) [
    | inl hit ↦
        subst (λ (r : MetricRow). IsCapped adm (vendor_key vendor r.datapoint_attributes))
          (sym (if_of_true _ _ _ hit)) (cap_attributes-IsCapped adm s.datapoint_attributes differ)
    | inr miss ↦ cc (
      sym miss,
      ap (is_vendor_row vendor) (
          sym (
            if_of_false (is_vendor_row vendor s)
              (record s { datapoint_attributes = cap_attributes vendor adm s.datapoint_attributes })
              s miss)),
      e,
    )
  ]

  -- What the instrument's admission answered to some counts.
  abbrev pub Answered : CounterAdmission → Type 0
  Answered adm =
      (state : State) × (counts : List (CounterKey × ℕ)) × ((vendor.admit state counts
          vendor.name_limit vendor.label_limit).1
        ≡ ok adm)

  admitted_rows-IsCapped :
      (rows made : List MetricRow) (run : State × Result E CounterAdmission) (r : MetricRow)
      → str_eq vendor.label_attr vendor.name_attr ≡ false
      → (admitted_rows vendor rows run).1 ≡ ok made
      → IsMember r made
      → is_vendor_row vendor r ≡ true
      → (adm : CounterAdmission) × (run.1 ≡ ok adm)
        × IsCapped adm (vendor_key vendor r.datapoint_attributes)
  admitted_rows-IsCapped rows made (after, err why) r differ h inside e = cc h
  admitted_rows-IsCapped rows made (after, ok adm) r differ h inside e =
      let (s, s_inside, same) =
        IsMember-map (cap_row vendor adm) r rows
          (subst (IsMember r) (sym (ok-injective h)) inside) in
      (
        adm,
        refl,
        subst (λ (q : MetricRow). IsCapped adm (vendor_key vendor q.datapoint_attributes))
            (sym same) (IsCapped-row adm s differ (ap (is_vendor_row vendor) (sym same) ∙ e)),
      )

  after_dims-IsCapped :
      (run : State × Result E (List MetricRow)) (made : List MetricRow) (r : MetricRow)
      → str_eq vendor.label_attr vendor.name_attr ≡ false
      → (after_dims vendor run).1 ≡ ok made
      → IsMember r made
      → is_vendor_row vendor r ≡ true
      → (adm : CounterAdmission) × Answered adm
        × IsCapped adm (vendor_key vendor r.datapoint_attributes)
  after_dims-IsCapped (state, err why) made r differ h inside e = cc h
  after_dims-IsCapped (state, ok rows) made r differ h inside e =
      let counts = count_rows_of vendor rows [] in
      elim (Bool-cases (length counts == 0)) [
        | inl empty ↦
            let r_inside = subst (IsMember r) (sym (ok-injective (rw empty at h))) inside in
            cc (empty, counted rows [] r r_inside e)
        | inr some_rows ↦
            let (adm, answered, capped) =
              admitted_rows-IsCapped rows made
                (vendor.admit state counts vendor.name_limit vendor.label_limit) r differ
                (rw some_rows at h) inside e in
            (adm, (state, counts, answered), capped)
      ]

  -- Of the rows that capVendorInstrument passes on, each of the instrument has an admitted name with no label, the
  -- label `other` or one admitted under the name, or the name `other` with no label, by what the admission
  -- answered, when the name's and the label's attributes differ.
  pub cap_vendor_instrument-IsCapped :
      (state : State) (rows made : List MetricRow) (r : MetricRow)
      → str_eq vendor.label_attr vendor.name_attr ≡ false
      → (cap_vendor_instrument vendor state rows).1 ≡ ok made
      → IsMember r made
      → is_vendor_row vendor r ≡ true
      → (adm : CounterAdmission) × Answered adm
        × IsCapped adm (vendor_key vendor r.datapoint_attributes)
  unfolding cap_vendor_instrument
  cap_vendor_instrument-IsCapped state rows made r differ h inside e =
      after_dims-IsCapped (cap_dim_values vendor state rows) made r differ h inside e
