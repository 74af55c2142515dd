-- ===== src/Stats/Series/Once.antt =====
-- `AddVM` of internal/analysis/stats.go keeps the statistics of a VM consistent, and counts no sample
-- twice.
use rightsizer.Prelude.{
  ℕ, zero, suc, ◌+◌, ◌/◌, ◌%◌, ◌^◌, ◌≤◌, ◌<◌, ◌≡◌, refl, sym, ap, ◌∙◌, inl, inr, Bool, true, false,
  some, List, [], ◌∷◌, arith, ℤ, pos, ltℤ, ◌+ℤ◌, ◌-ℤ◌, ◌≤ℤ◌, ltℤ→lt, ltℤ→ge, leb, All, Bool-cases,
  if-both, ◌||◌,
}
use mathlib.Core.Path.{subst}
use rightsizer.Floats.{Floats}
use rightsizer.Text.{Text, codes}
use rightsizer.Text.Equality.{text_eq, text_eq_refl}
use rightsizer.Map.{Map, lookup, insert, lookup-insert}
use rightsizer.Stats.{Hist, hist_buckets, ignored, bucket, add_n}
use rightsizer.Stats.Counts.{IsHist, add_n-Added}
use rightsizer.Stats.Demand.{Demand, slot_length, set_slot}
use rightsizer.Stats.Demand.Counted.{IsDemand, set_slot-IsDemand}
use rightsizer.Stats.Vm.{VmStats, Store}
use rightsizer.Stats.Series.{
  weight, span, slot_fuel, half_hour, is_zero, fill_slots, add_demand, at, Series, sampled,
  with_sample, add_sample, and_then, add_samples, stats_of, stored, add_vm,
}

-- Two insertions of one value are one.
insert_twice :
    {V : Type 0} (k : Text) (v : V) (m : Map V) → insert k v (insert k v m) ≡ insert k v m
unfolding insert
insert_twice k v [] = rw (text_eq_refl k) refl
insert_twice k v ((j, w) ∷ m) = elim (Bool-cases (text_eq j k)) [
  | inl e ↦ rw e (rw (text_eq_refl k) refl)
  | inr e ↦ rw e (rw e (ap (λ l. (j, w) ∷ l) (insert_twice k v m)))
]

-- A sum that stays below 2^64 does not wrap around.
small_sum : (n : ℕ) → n < 2 ^ 64 → n % 2 ^ 64 ≡ n
small_sum n h = omega (arith, h)

-- The samples of a series, each with its weight.
abbrev pub weighed : ℕ → List ℤ → ℕ
weighed w [] = 0
weighed w (t ∷ ts) = w + weighed w ts

module _ (fl : Floats) where
  -- float64 in which a value of at most 100, doubled, truncates to at most 200.
  abbrev pub HasBuckets : Type 0
  HasBuckets =
      (v : fl.F) → fl.lt v (fl.of_int 0) ≡ false → fl.is_nan v ≡ false → bucket fl v ≤ hist_buckets

  -- Both histograms count no more than the samples, and the slots are in range.
  abbrev pub IsVm : VmStats fl → Type 0
  IsVm vs =
      IsHist fl vs.cpu
      × IsHist fl vs.mem
      × (vs.cpu.n ≤ vs.samples)
      × (vs.mem.n ≤ vs.samples)
      × IsDemand fl vs.slots

  fill_slots-IsDemand :
      (f : ℕ) (anchor t ts : ℤ) (mhz : fl.F) (d : Demand fl)
      → IsDemand fl d
      → IsDemand fl (fill_slots fl f anchor t ts mhz d)
  unfolding fill_slots
  fill_slots-IsDemand zero anchor t ts mhz d h = h
  fill_slots-IsDemand (suc f) anchor t ts mhz d h =
      if-both (IsDemand fl) (ltℤ t ts)
        (λ e.
          fill_slots-IsDemand f anchor (t +ℤ pos slot_length) ts mhz (set_slot fl anchor t mhz d)
            ((set_slot-IsDemand fl anchor t mhz d h).0))
        (λ e. h)

  add_demand-IsDemand :
      (anchor ts : ℤ) (mhz : fl.F) (interval : ℕ) (d : Demand fl)
      → IsDemand fl d
      → IsDemand fl (add_demand fl anchor ts mhz interval d)
  unfolding add_demand
  add_demand-IsDemand anchor ts mhz interval d h =
      if-both (IsDemand fl) (fl.lt mhz (fl.of_int 0) || is_zero anchor) (λ e. h)
        (λ e.
          if-both (IsDemand fl) (leb (span fl interval) slot_length)
            (λ k. (set_slot-IsDemand fl anchor (ts -ℤ pos (span fl interval / 2)) mhz d h).0)
            (λ k.
              fill_slots-IsDemand (slot_fuel fl interval) anchor
                (half_hour (ts -ℤ pos (span fl interval))) ts mhz d h))

  -- The histogram that `AddN` leaves counts no more samples than are added.
  add_n-Counted :
      HasBuckets
      → (v : fl.F) (n : ℕ) (h : Hist fl) → h.n + n < 2 ^ 64
      → IsHist fl h
      → (h' : Hist fl) × (add_n fl v n h ≡ some h') × IsHist fl h' × (h'.n ≤ h.n + n)
  add_n-Counted small v n h room good =
      let (h', e, (g, same, more)) = add_n-Added fl small v n h room good in
      let bound : h'.n ≤ h.n + n = elim (Bool-cases (ignored fl v n)) [
        | inl i ↦ omega (arith, ap (λ (z : Hist fl). z.n) (same i))
        | inr i ↦ omega (arith, (more i).0)
      ] in
      (h', e, g, bound)

  module _ (small : HasBuckets) (anchor : ℤ) (s : Series fl) (vcpu : ℕ) where
    add_sample-IsVm :
        (i : ℕ) (t : ℤ) (vs : VmStats fl)
        → IsVm vs
        → vs.samples + weight s.interval < 2 ^ 64
        → (vs' : VmStats fl) × (add_sample fl anchor s vcpu i t vs ≡ some vs')
          × IsVm vs'
          × (vs'.last ≡ t)
          × (vs'.samples ≡ vs.samples + weight s.interval)
    unfolding add_sample
    add_sample-IsVm i t vs (gc, gm, nc, nm, d) room =
        let w = weight s.interval in
        let (c, ec, c_good, c_n) =
          add_n-Counted small (at fl s i (codes "cpu.usage.average")) w vs.cpu
            (omega (arith, room, nc)) gc in
        let (m, em, m_good, m_n) =
          add_n-Counted small (at fl s i (codes "mem.usage.average")) w vs.mem
            (omega (arith, room, nm)) gm in
        let same = small_sum (vs.samples + w) room in
        (
          sampled fl anchor s vcpu i t vs c m,
          ap
                (λ o.
                  with_sample fl anchor s vcpu i t vs o
                    (add_n fl (at fl s i (codes "mem.usage.average")) w vs.mem))
                ec
              ∙ ap (λ o. with_sample fl anchor s vcpu i t vs (some c) o) em,
          (
            c_good,
            m_good,
            omega (arith, c_n, nc, same),
            omega (arith, m_n, nm, same),
            add_demand-IsDemand anchor t (at fl s i (codes "cpu.usagemhz.average")) s.interval
                vs.slots d,
          ),
          refl,
          same,
        )

    -- The loop ends with the newest of all samples, those before it counted.
    abbrev Ends : List ℤ → VmStats fl → VmStats fl → Type 0
    Ends ts vs vs' =
        IsVm vs'
        × (vs.last ≤ℤ vs'.last)
        × All (λ t. t ≤ℤ vs'.last) ts
        × (vs'.samples ≤ vs.samples + weighed (weight s.interval) ts)

    add_samples-IsVm :
        (i : ℕ) (ts : List ℤ) (vs : VmStats fl)
        → IsVm vs
        → vs.samples + weighed (weight s.interval) ts < 2 ^ 64
        → (vs' : VmStats fl) × (add_samples fl anchor s vcpu i ts vs ≡ some vs') × Ends ts vs vs'
    unfolding add_samples
    add_samples-IsVm i [] vs g room = (vs, refl, (g, omega arith, tt, omega arith))
    add_samples-IsVm i (t ∷ ts) vs g room =
        let more = add_samples fl anchor s vcpu (suc i) ts in
        let P : Bool → Type 0 = λ b.
          (vs' : VmStats fl) × (elim b [
            | true ↦ and_then fl more (add_sample fl anchor s vcpu i t vs)
            | false ↦ more vs
          ]
            ≡ some vs')
          × Ends (t ∷ ts) vs vs' in
        elim (Bool-cases (ltℤ vs.last t)) [
          | inl e ↦ subst P (sym e) (
              let (v1, r1, g1, l1, n1) = add_sample-IsVm i t vs g (omega (arith, room)) in
              let (v2, r2, (g2, l2, a2, n2)) =
                add_samples-IsVm (suc i) ts v1 g1 (omega (arith, room, n1)) in
              let at = subst (λ z. z ≤ℤ v2.last) l1 l2 in
              let up = ltℤ→lt vs.last t e in
              (
                v2,
                ap (and_then fl more) r1 ∙ r2,
                (g2, omega (arith, up, at), (at, a2), omega (arith, n1, n2)),
              ))
          | inr e ↦ subst P (sym e) (
              let (v2, r2, (g2, l2, a2, n2)) =
                add_samples-IsVm (suc i) ts vs g (omega (arith, room)) in
              let down = ltℤ→ge vs.last t e in
              (v2, r2, (g2, l2, (omega (arith, down, l2), a2), omega (arith, n2))))
        ]

    -- Samples that are not after the newest one are passed over.
    add_samples_past :
        (i : ℕ) (ts : List ℤ) (vs : VmStats fl)
        → All (λ t. t ≤ℤ vs.last) ts
        → add_samples fl anchor s vcpu i ts vs ≡ some vs
    unfolding add_samples
    add_samples_past i [] vs h = refl
    add_samples_past i (t ∷ ts) vs (h, hs) =
        let past : ltℤ vs.last t ≡ false = ground (arith, h) in
        let more = add_samples fl anchor s vcpu (suc i) ts in
        subst
          (λ b.
            elim b [
              | true ↦ and_then fl more (add_sample fl anchor s vcpu i t vs)
              | false ↦ more vs
            ]
            ≡ some vs)
          (sym past) (add_samples_past (suc i) ts vs hs)

  -- Once a series has been added, adding it again changes nothing. The statistics of its VM stay
  -- consistent and end with the newest of its samples, and those of the other VMs are as before.
  -- The histograms have the buckets that percentages need, and the weights of all samples of the VM
  -- add up to less than 2^64.
  pub add_vm_once :
      HasBuckets
      → (s : Series fl) (vcpu : ℕ) (st : Store fl) → IsVm (stats_of fl (lookup s.ref st.vms))
      → (stats_of fl (lookup s.ref st.vms)).samples + weighed (weight s.interval) s.ts < 2 ^ 64
      → (st' : Store fl) × (add_vm fl s vcpu st ≡ some st')
        × (add_vm fl s vcpu st' ≡ some st')
        × IsVm (stats_of fl (lookup s.ref st'.vms))
        × All (λ t. t ≤ℤ (stats_of fl (lookup s.ref st'.vms)).last) s.ts
        × ((k : Text) → text_eq s.ref k ≡ false → lookup k st'.vms ≡ lookup k st.vms)
  unfolding add_vm
  add_vm_once small s vcpu st good room =
      let old = stats_of fl (lookup s.ref st.vms) in
      let (vs, e, (g, l, a, n)) = add_samples-IsVm small st.anchor s vcpu 0 s.ts old good room in
      let m = insert s.ref vs st.vms in
      let st' : Store fl = record st { vms = m } in
      let here : lookup s.ref m ≡ some vs =
        lookup-insert s.ref s.ref vs st.vms ∙ rw (text_eq_refl s.ref) refl in
      let its : stats_of fl (lookup s.ref m) ≡ vs = ap (stats_of fl) here in
      let again =
        subst (λ x. add_samples fl st.anchor s vcpu 0 s.ts x ≡ some x) (sym its)
          (add_samples_past small st.anchor s vcpu 0 s.ts vs a) in
      (
        st',
        ap (stored fl s st) e,
        ap (stored fl s st') (again ∙ ap some its)
            ∙ ap (λ x. some (record st { vms = x })) (insert_twice s.ref vs st.vms),
        subst IsVm (sym its) g,
        subst (λ x. All (λ t. t ≤ℤ x.last) s.ts) (sym its) a,
        λ k other. lookup-insert s.ref k vs st.vms ∙ rw other refl,
      )
