-- ===== src/Io/Load.antt =====
-- `ioSample`, `IOStats` and `IOPoint` of internal/analysis/io.go: the storage load of one sample, and of
-- a datastore, with a point for every five minutes.
pub mod Flushed
mod Tests
use rightsizer.Prelude.{
  ℕ, ◌+◌, ◌*◌, ◌/◌, Bool, true, false, not, ◌&&◌, ◌||◌, Option, none, some, List, [], ◌∷◌, ◌++◌,
  map, ℤ, pos, negsuc, ltℤ, ◌-ℤ◌, ltb, filter_by, if◌then◌else◌,
}
use rightsizer.Floats.{Floats}
use rightsizer.Text.{Text, codes}
use rightsizer.Map.{Map, lookup}
use rightsizer.Stats.Average.{Stat, add_stat}
use rightsizer.Stats.Series.{Series, item}
use rightsizer.Recommend.Order.{sort_by}
use rightsizer.Io.{Logs, LogHist, add_rate, entry, set_entry}

-- `pointEvery`, in nanoseconds
abbrev pub point_every : ℕ
point_every = 300 * 1000000000

-- `Time.Truncate` to five minutes
abbrev pub five_minutes : ℤ → ℤ
five_minutes (pos n) = pos (point_every * (n / point_every))
five_minutes (negsuc n) = pos 0 -ℤ pos (point_every * ((n + point_every) / point_every))

abbrev pub same_time : ℤ → ℤ → Bool
same_time s t = not (ltℤ s t) && not (ltℤ t s)

module _ (fl : Floats) where
  pub record IoSample : Type 0 where
    pub r : fl.F
    pub w : fl.F
    pub rkb : fl.F
    pub wkb : fl.F
    pub lat_w : fl.F
    pub lat_io : fl.F
    pub ops : Bool
    pub kb : Bool

  abbrev is_some : Option fl.F → Bool
  is_some none = false
  is_some (some v) = true

  abbrev not_negative : Option fl.F → Option fl.F
  not_negative none = none
  not_negative (some v) = if fl.le (fl.of_int 0) v then some v else none

  abbrev at_instance : Text → ℕ → Option (Map (List fl.F)) → Option fl.F
  at_instance inst i none = none
  at_instance inst i (some m) = item_at i (lookup inst m)
    where
      item_at : ℕ → Option (List fl.F) → Option fl.F
      item_at i none = none
      item_at i (some v) = not_negative (item i v)

  -- `at` of `ioSample.add`: none where it returns -1
  unfoldable pub reported : Series fl → Text → ℕ → Text → Option fl.F
  unfolding lookup
  reported s inst i m = at_instance inst i (lookup m s.inst)

  -- max(v, 0)
  abbrev or_zero : Option fl.F → fl.F
  or_zero none = fl.of_int 0
  or_zero (some v) = fl.larger v (fl.of_int 0)

  -- The latency is weighted by the operations.
  abbrev pub add_latency : Option fl.F → Option fl.F → IoSample → IoSample
  add_latency (some l) (some r) a =
      if fl.lt (fl.of_int 0) r
      then record a { lat_w = fl.add a.lat_w (fl.mul l r); lat_io = fl.add a.lat_io r }
      else a
  add_latency _ _ a = a

  unfoldable pub add_load : Series fl → Text → ℕ → IoSample → IoSample
  unfolding reported
  add_load s inst i a =
      let at : Text → Option fl.F = reported s inst i in
      let r = at (codes "datastore.numberReadAveraged.average") in
      let w = at (codes "datastore.numberWriteAveraged.average") in
      let rkb = at (codes "datastore.read.average") in
      let wkb = at (codes "datastore.write.average") in
      let rl = at (codes "datastore.totalReadLatency.average") in
      let wl = at (codes "datastore.totalWriteLatency.average") in
      add_latency wl w (
        add_latency rl r (record a {
          r = fl.add a.r (or_zero r);
          w = fl.add a.w (or_zero w);
          rkb = fl.add a.rkb (or_zero rkb);
          wkb = fl.add a.wkb (or_zero wkb);
          ops = a.ops || is_some r || is_some w;
          kb = a.kb || is_some rkb || is_some wkb;
        }))

  pub record IoPoint : Type 0 where
    pub t : ℤ
    pub iops : fl.F
    pub kbps : fl.F

  -- `ioPointAcc`
  pub record Pending : Type 0 where
    pub iops : fl.F
    pub kbps : fl.F
    pub n : ℕ

  pub record IoStats (lg : Logs fl) : Type 0 where
    pub iops : LogHist fl lg
    pub kbps : LogHist fl lg
    pub latency : LogHist fl lg
    pub read : Stat fl
    pub write : Stat fl
    pub read_kb : Stat fl
    pub write_kb : Stat fl
    pub size_kb : fl.F
    pub size_ops : fl.F
    pub points : List IoPoint
    pub acc : List (ℤ × Pending)

module _ (fl : Floats) (lg : Logs fl) where
  abbrev pub record_ops : IoSample fl → ℕ → IoStats fl lg → IoStats fl lg
  unfolding add_rate add_stat
  record_ops a w st =
      if a.ops
      then record st {
        iops = add_rate fl lg (fl.add a.r a.w) w st.iops;
        read = add_stat fl a.r w st.read;
        write = add_stat fl a.w w st.write;
      }
      else st

  abbrev pub record_kb : IoSample fl → ℕ → IoStats fl lg → IoStats fl lg
  unfolding add_rate add_stat
  record_kb a w st =
      if a.kb
      then record st {
        kbps = add_rate fl lg (fl.add a.rkb a.wkb) w st.kbps;
        read_kb = add_stat fl a.rkb w st.read_kb;
        write_kb = add_stat fl a.wkb w st.write_kb;
      }
      else st

  abbrev pub record_size : IoSample fl → ℕ → IoStats fl lg → IoStats fl lg
  record_size a w st =
      if a.ops && a.kb
      then record st {
        size_kb = fl.add st.size_kb (fl.mul (fl.add a.rkb a.wkb) (fl.of_int w));
        size_ops = fl.add st.size_ops (fl.mul (fl.add a.r a.w) (fl.of_int w));
      }
      else st

  abbrev pub record_latency : IoSample fl → ℕ → IoStats fl lg → IoStats fl lg
  unfolding add_rate
  record_latency a w st =
      if fl.lt (fl.of_int 0) a.lat_io
      then record st { latency = add_rate fl lg (fl.div a.lat_w a.lat_io) w st.latency }
      else st

  abbrev pub begun : Option (Pending fl) → Pending fl
  begun none = record { iops = fl.of_int 0; kbps = fl.of_int 0; n = 0 }
  begun (some p) = p

  abbrev pub joined : IoSample fl → Pending fl → Pending fl
  joined a p = record {
    iops = fl.add p.iops (fl.add a.r a.w);
    kbps = fl.add p.kbps (fl.add a.rkb a.wkb);
    n = p.n + 1;
  }

  -- The samples of five minutes are averaged later.
  abbrev pub record_point : IoSample fl → ℤ → Bool → IoStats fl lg → IoStats fl lg
  unfolding entry set_entry ◌-ℤ◌
  record_point a t points st =
      let bt = five_minutes t in
      if points
      then record st {
        acc = set_entry same_time bt (joined a (begun (entry same_time bt st.acc))) st.acc;
      }
      else st

  unfoldable pub add_sum : IoSample fl → ℤ → ℕ → Bool → IoStats fl lg → IoStats fl lg
  unfolding record_ops record_kb record_latency record_point
  add_sum a t w points st =
      record_point a t points
        (record_latency a w (record_size a w (record_kb a w (record_ops a w st))))

  abbrev pub is_due : ℤ → ℤ × Pending fl → Bool
  is_due before (t, p) = ltℤ t before && ltb 0 p.n

  abbrev pub point : ℤ × Pending fl → IoPoint fl
  point (t, p) = record {
    t = t;
    iops = fl.div p.iops (fl.of_int p.n);
    kbps = fl.div p.kbps (fl.of_int p.n);
  }

  -- The points stand in the order of their times.
  abbrev pub earlier : IoPoint fl → IoPoint fl → Bool
  earlier a b = ltℤ a.t b.t

  unfoldable pub flush : ℤ → IoStats fl lg → IoStats fl lg
  unfolding sort_by
  flush before st =
      let due = filter_by (is_due before) st.acc in
      record st {
        points = sort_by earlier (st.points ++ map point due);
        acc = filter_by (λ e. not (is_due before e)) st.acc;
      }

  unfoldable pub read_share : IoStats fl lg → fl.F
  read_share st =
      let t = fl.add st.read.sum st.write.sum in
      if fl.lt (fl.of_int 0) t then fl.div st.read.sum t else fl.of_int 0

  unfoldable pub io_size : IoStats fl lg → fl.F
  io_size st =
      if fl.lt (fl.of_int 0) st.size_ops then fl.div st.size_kb st.size_ops else fl.of_int 0
