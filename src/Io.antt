-- ===== src/Io.antt =====
-- `LogHist` of internal/analysis/io.go: the histograms of rates, whose buckets are 2% apart. A map is an
-- association list.
pub mod Load
use rightsizer.Prelude.{
  ℕ, ◌+◌, ◌-◌, ◌%◌, ◌^◌, Bool, ◌||◌, Option, none, some, List, [], ◌∷◌, ltb, leb, ◌==◌,
  if◌then◌else◌,
}
use rightsizer.Floats.{Floats}
use rightsizer.Stats.{add_count, ignored}
use rightsizer.Recommend.Order.{sort_by}

module _ {K : Type 0} {V : Type 0} (same : K → K → Bool) where
  -- m[k], with whether the key is there
  unfoldable pub entry : K → List (K × V) → Option V
  entry k [] = none
  entry k ((j, v) ∷ m) = if same j k then some v else entry k m

  -- m[k] = v
  unfoldable pub set_entry : K → V → List (K × V) → List (K × V)
  set_entry k v [] = (k, v) ∷ []
  set_entry k v ((j, w) ∷ m) =
      let rest = set_entry k v m in if same j k then (k, v) ∷ m else (j, w) ∷ rest

-- What the code uses of the package math, besides `Floats`.
pub record Logs (fl : Floats) : Type 0 where
  pub log1p : fl.F → fl.F
  pub expm1 : fl.F → fl.F
  pub is_inf : fl.F → Bool
  -- math.Log(1.02)
  pub log_step : fl.F

abbrev pub max_uint16 : ℕ
max_uint16 = 2 ^ 16 - 1

abbrev pub count_of : Option ℕ → ℕ
count_of none = 0
count_of (some c) = c

-- The first bucket at which the counts, by rising bucket, reach the target.
unfoldable pub find_key : ℕ → ℕ → List (ℕ × ℕ) → Option ℕ
find_key target acc [] = none
find_key target acc ((k, c) ∷ cs) =
    let acc' = (acc + c) % 2 ^ 64 in
    let rest = find_key target acc' cs in if leb target acc' then some k else rest

module _ (fl : Floats) (lg : Logs fl) where
  pub record LogHist : Type 0 where
    pub b : List (ℕ × ℕ)
    pub n : ℕ
    pub max : fl.F
    pub sum : fl.F

  unfoldable pub log_bucket : fl.F → ℕ
  log_bucket v = fl.trunc (fl.smaller (fl.div (lg.log1p v) lg.log_step) (fl.of_int max_uint16))

  unfoldable pub add_rate : fl.F → ℕ → LogHist → LogHist
  unfolding entry set_entry add_count log_bucket
  add_rate v n h =
      if ignored fl v n || lg.is_inf v
      then h
      else (let i = log_bucket v in
          record {
            b = set_entry ◌==◌ i (add_count (count_of (entry ◌==◌ i h.b)) n) h.b;
            n = (h.n + n) % 2 ^ 64;
            max = fl.larger h.max v;
            sum = fl.add h.sum (fl.mul v (fl.of_int n));
          })

  abbrev pub log_target : fl.F → LogHist → ℕ
  log_target p h = fl.ceil (fl.div (fl.mul (fl.of_int h.n) p) (fl.of_int 100))

  -- The upper end of a bucket.
  abbrev pub log_bound : LogHist → Option ℕ → fl.F
  log_bound h none = h.max
  log_bound h (some k) =
      fl.smaller (lg.expm1 (fl.mul (fl.of_int ((k + 1) % 2 ^ 16)) lg.log_step)) h.max

  unfoldable pub log_pct : fl.F → LogHist → fl.F
  unfolding sort_by find_key
  log_pct p h =
      if h.n == 0
      then fl.of_int 0
      else log_bound h (find_key (log_target p h) 0 (sort_by (λ x y. ltb x.0 y.0) h.b))

  unfoldable pub log_avg : LogHist → fl.F
  log_avg h = if h.n == 0 then fl.of_int 0 else fl.div h.sum (fl.of_int h.n)
