-- ===== src/Recommend/Rightsizing.antt =====
-- What the findings of `rightsize` (internal/analysis/recommend.go) say of the sizes that it recommends.
use rightsizer.Prelude.{
  ℕ, ◌+◌, ◌-◌, ◌*◌, ◌≤◌, ◌<◌, ◌≡◌, refl, Bool, if◌then◌else◌, ◌⊎◌, inl, inr, true, false, List, [],
  ◌∷◌, ◌++◌, Among, max, ltb, ◌&&◌, arith, pos, ◌-ℤ◌, leb, All, All-append, Bool-cases,
}
use rightsizer.Floats.{Floats}
use rightsizer.Text.{Text}
use rightsizer.Stats.{pct}
use rightsizer.Stats.Vm.{VmStats, hours}
use rightsizer.Recommend.Data.{
  Kind, cpu_over, cpu_under, mem_over, mem_under, idle, Vm, Profile, Finding, ratio,
}
use rightsizer.Recommend.Rules.{
  conf, is_idle, cpus_for, cpu_rule, mem_rule, idle_rule, round_gib, need_mb, rightsize,
}

module _ (fl : Floats) where
  -- What a finding of a kind says of the sizes that are recommended.
  abbrev pub Says : Kind → Vm → ℕ → ℕ → Finding fl → Type 0
  Says cpu_under vm c m f = (vm.vcpu < c) × (f.vcpu ≡ pos vm.vcpu -ℤ pos c)
  Says cpu_over vm c m f = (1 ≤ c) × (c < vm.vcpu) × (f.vcpu ≡ pos (vm.vcpu - c))
  Says mem_under vm c m f = f.mem_mb ≡ pos vm.mem_mb -ℤ pos m
  Says mem_over vm c m f = (m + 1024 ≤ vm.mem_mb) × (f.mem_mb ≡ pos (vm.mem_mb - m))
  Says idle vm c m f = (vm.power_on ≡ true) × (f.vcpu ≡ pos vm.vcpu) × (f.mem_mb ≡ pos vm.mem_mb)
  Says _ vm c m f = ⊥

  abbrev pub Agrees : Vm → ℕ → ℕ → Finding fl → Type 0
  Agrees vm c m f = (f.vm ≡ vm.name) × (f.cluster ≡ vm.cluster) × Says f.kind vm c m f

  cpu_rule-Agrees :
      (vm : Vm) (s : VmStats fl) (p : Profile fl) (cf : Text) (m : ℕ)
      → All (Agrees vm ((cpu_rule fl vm s p cf).0) m) ((cpu_rule fl vm s p cf).1)
  unfolding cpu_rule
  cpu_rule-Agrees vm s p cf m = ground arith

  mem_rule-Agrees :
      (lower : Text → Text) (vm : Vm) (s : VmStats fl) (p : Profile fl) (cf : Text) (c : ℕ)
      → All (Agrees vm c ((mem_rule fl lower vm s p cf).0)) ((mem_rule fl lower vm s p cf).1)
  unfolding mem_rule
  mem_rule-Agrees lower vm s p cf c = ground arith

  idle_rule-Agrees :
      (vm : Vm) (s : VmStats fl) (cf : Text) (c m : ℕ) → All (Agrees vm c m) (idle_rule fl vm s cf)
  idle_rule-Agrees vm s cf c m = ground arith

  -- There is a finding of the kind.
  abbrev pub Reports : Kind → List (Finding fl) → Type 0
  Reports k fs = (f : Finding fl) × Among f fs × (f.kind ≡ k)

  -- A change of the vCPUs has its finding.
  abbrev pub IsCpuReported : Vm → ℕ → List (Finding fl) → Type 0
  IsCpuReported vm c fs =
      (c ≡ vm.vcpu)
      ⊎ ((vm.vcpu < c) × Reports cpu_under fs)
      ⊎ ((c < vm.vcpu) × (Reports cpu_over fs ⊎ Reports idle fs))

  -- A change of the memory has its finding.
  abbrev pub IsMemReported : Vm → ℕ → List (Finding fl) → Type 0
  IsMemReported vm m fs =
      (m ≡ vm.mem_mb)
      ⊎ Reports mem_under fs
      ⊎ ((m + 1024 ≤ vm.mem_mb) × (Reports mem_over fs ⊎ Reports idle fs))

  Among-left : (f : Finding fl) (xs ys : List (Finding fl)) → Among f xs → Among f (xs ++ ys)
  Among-left f [] ys h = absurd h
  Among-left f (x ∷ xs) ys (inl e) = inl e
  Among-left f (x ∷ xs) ys (inr h) = inr (Among-left f xs ys h)

  Among-right : (f : Finding fl) (xs ys : List (Finding fl)) → Among f ys → Among f (xs ++ ys)
  Among-right f [] ys h = h
  Among-right f (x ∷ xs) ys h = inr (Among-right f xs ys h)

  Reports-left : (k : Kind) (xs ys : List (Finding fl)) → Reports k xs → Reports k (xs ++ ys)
  Reports-left k xs ys (f, h, e) = (f, Among-left f xs ys h, e)

  Reports-right : (k : Kind) (xs ys : List (Finding fl)) → Reports k ys → Reports k (xs ++ ys)
  Reports-right k xs ys (f, h, e) = (f, Among-right f xs ys h, e)

  -- The finding is left out of an idle VM only.
  unless_idle :
      {k : Kind} (b : Bool) (f : Finding fl)
      → f.kind ≡ k
      → Reports k (if b then [] else f ∷ []) ⊎ (b ≡ true)
  unless_idle true f e = inr refl
  unless_idle false f e = inl (f, inl refl, e)

  idle_rule-Reports :
      (vm : Vm) (s : VmStats fl) (cf : Text)
      → is_idle fl vm s ≡ true
      → Reports idle (idle_rule fl vm s cf)
  idle_rule-Reports vm s cf h = rw h (_, inl refl, refl)

  cpu_rule_cases :
      (vm : Vm) (s : VmStats fl) (p : Profile fl) (cf : Text)
      → let r = cpu_rule fl vm s p cf in
        (1 ≤ vm.vcpu → 1 ≤ r.0)
        × ((r.0 ≡ vm.vcpu)
            ⊎ ((vm.vcpu < r.0) × Reports cpu_under (r.1))
            ⊎ ((r.0 < vm.vcpu) × (Reports cpu_over (r.1) ⊎ (is_idle fl vm s ≡ true))))
  unfolding cpu_rule
  cpu_rule_cases vm s p cf =
      let p99 = pct fl (fl.of_int 99) s.cpu in
      let need = max 1 (cpus_for fl p vm.vcpu (pct fl p.percentile s.cpu)) in
      elim (Bool-cases (fl.le (fl.of_int 90) p99 && ltb vm.vcpu 64)) [
        | inl e ↦ rw e ((λ h. omega arith), inr (inl (omega arith, (_, inl refl, refl))))
        | inr e ↦ rw e (elim (Bool-cases (ltb need vm.vcpu)) [
          | inl k ↦ rw k (
            (λ h. omega arith),
            inr (inr (ground (arith, k), unless_idle (is_idle fl vm s) _ refl)),
          )
          | inr k ↦ rw k ((λ h. h), inl refl)
        ])
      ]

  mem_rule_cases :
      (lower : Text → Text) (vm : Vm) (s : VmStats fl) (p : Profile fl) (cf : Text)
      → let r = mem_rule fl lower vm s p cf in
        ((r.0 ≡ vm.mem_mb) ⊎ ((g : ℕ) × (r.0 ≡ g * 1024)))
        × ((r.0 ≡ vm.mem_mb)
            ⊎ Reports mem_under (r.1)
            ⊎ ((r.0 + 1024 ≤ vm.mem_mb) × (Reports mem_over (r.1) ⊎ (is_idle fl vm s ≡ true))))
  unfolding mem_rule round_gib
  mem_rule_cases lower vm s p cf =
      let more = fl.mul (fl.of_int vm.mem_mb) (ratio fl 125 100) in
      elim (Bool-cases (fl.le (fl.of_int 90) (pct fl (fl.of_int 95) s.mem))) [
        | inl e ↦
            rw e (inr (fl.ceil (fl.div more (fl.of_int 1024)), refl), inr (inl (_, inl refl, refl)))
        | inr e ↦ rw e (elim (Bool-cases (leb (need_mb fl lower vm s p + 1024) vm.mem_mb)) [
          | inl k ↦
              rw k
                (inr (_, refl), inr (inr (ground (arith, k), unless_idle (is_idle fl vm s) _ refl)))
          | inr k ↦ rw k (inl refl, inl refl)
        ])
      ]

  -- `rightsize` recommends at least one vCPU for a VM that has one, and a memory size that is a whole
  -- number of gigabytes or the present one. Its findings name the VM and say of the recommended sizes
  -- what their kind promises: an undersized CPU gets more vCPUs, an oversized one fewer, with the
  -- difference as the saving, an oversized memory at least a gigabyte less, and an idle VM is powered
  -- on. More vCPUs are recommended with a finding of an undersized CPU, fewer with one of an oversized
  -- CPU or of an idle VM. Another memory size is recommended with a finding of undersized memory, or is
  -- at least a gigabyte less, with one of oversized memory or of an idle VM.
  pub rightsize-Agrees :
      (lower : Text → Text) (vm : Vm) (s : VmStats fl) (p : Profile fl) (window : fl.F)
      → let r = rightsize fl lower vm s p window in
        All (Agrees vm ((r.0).rec_vcpu) ((r.0).rec_mem_mb)) (r.1)
        × (1 ≤ vm.vcpu → 1 ≤ (r.0).rec_vcpu)
        × (((r.0).rec_mem_mb ≡ vm.mem_mb) ⊎ ((g : ℕ) × ((r.0).rec_mem_mb ≡ g * 1024)))
        × IsCpuReported vm ((r.0).rec_vcpu) (r.1)
        × IsMemReported vm ((r.0).rec_mem_mb) (r.1)
  unfolding rightsize
  rightsize-Agrees lower vm s p window =
      let cf = conf fl (hours fl s) window in
      let (c, cs) = cpu_rule fl vm s p cf in
      let (m, ms) = mem_rule fl lower vm s p cf in
      let is = idle_rule fl vm s cf in
      let (least, cpu) = cpu_rule_cases vm s p cf in
      let (whole, mem) = mem_rule_cases lower vm s p cf in
      let idles : is_idle fl vm s ≡ true → Reports idle (is ++ (cs ++ ms)) =
        λ h. Reports-left idle is (cs ++ ms) (idle_rule-Reports vm s cf h) in
      let of_cpu =
        λ (k : Kind) (h : Reports k cs). Reports-right k is (cs ++ ms) (Reports-left k cs ms h) in
      let of_mem =
        λ (k : Kind) (h : Reports k ms). Reports-right k is (cs ++ ms) (Reports-right k cs ms h) in
      (
        All-append (Agrees vm c m) is _ (idle_rule-Agrees vm s cf c m) (
            All-append (Agrees vm c m) cs _ (cpu_rule-Agrees vm s p cf m)
              (mem_rule-Agrees lower vm s p cf c)),
        least,
        whole,
        elim cpu [
          | inl e ↦ inl e
          | inr (inl (up, h)) ↦ inr (inl (up, of_cpu cpu_under h))
          | inr (inr (down, inl h)) ↦ inr (inr (down, inl (of_cpu cpu_over h)))
          | inr (inr (down, inr h)) ↦ inr (inr (down, inr (idles h)))
        ],
        elim mem [
          | inl e ↦ inl e
          | inr (inl h) ↦ inr (inl (of_mem mem_under h))
          | inr (inr (down, inl h)) ↦ inr (inr (down, inl (of_mem mem_over h)))
          | inr (inr (down, inr h)) ↦ inr (inr (down, inr (idles h)))
        ],
      )
