-- ===== src/Parameters.antt =====
-- `SizingParams`, `Validate` and `parseGroups` of internal/analysis/sizing.go, and how
-- internal/engine/sizing.go keeps the parameters. The encoding as JSON is the parameter `Codec`.
pub mod Stored
mod Tests
use rightsizer.Prelude.{
  ℕ, Bool, true, false, not, ◌&&◌, ◌||◌, Option, none, some, List, [], ◌∷◌, ℤ, pos, ltℤ, ltb,
  if◌then◌else◌, Outcome, ok, err,
}
use rightsizer.Floats.{Floats}
use rightsizer.Text.{Text, codes}
use rightsizer.Text.Equality.{text_eq}
use rightsizer.Text.Strings.{trim_space, split, cut, byte_length}
use rightsizer.Atomicfile
use rightsizer.Atomicfile.{Inode, Disk, Faults, write_file}
use rightsizer.Atomicfile.Crash.{start}
use rightsizer.Recommend.Exclusions.{Matching, is_empty}

-- What is wrong with workload groups.
pub data Misnamed : Type 0 where
  no_name bad_pattern no_pattern : Misnamed

pub data Field : Type 0 where
  basis growth ratio cpu_target mem_target spares sockets uplift free_space group_length : Field
  groups : Misnamed → Field

pub record Group : Type 0 where
  pub name : Text
  pub patterns : List Text

abbrev cons_pattern : Text → Outcome Misnamed (List Text) → Outcome Misnamed (List Text)
cons_pattern p (err e) = err e
cons_pattern p (ok ps) = ok (p ∷ ps)

abbrev with_pattern :
    Text → Option Bool → Outcome Misnamed (List Text) → Outcome Misnamed (List Text)
with_pattern p none rest = err bad_pattern
with_pattern p (some b) rest = cons_pattern p rest

abbrev cons_group :
    Text
    → Outcome Misnamed (List Text)
    → Outcome Misnamed (List Group)
    → Outcome Misnamed (List Group)
cons_group name (err e) rest = err e
cons_group name (ok []) rest = err no_pattern
cons_group name (ok ps) (err e) = err e
cons_group name (ok ps) (ok gs) = ok (record { name = name; patterns = ps } ∷ gs)

module _ (mt : Matching) where
  unfoldable pub patterns_of : List Text → Outcome Misnamed (List Text)
  unfolding trim_space
  patterns_of [] = ok []
  patterns_of (q ∷ qs) =
      let p = mt.to_lower (trim_space q) in
      let rest = patterns_of qs in if is_empty p then rest else with_pattern p (mt.glob p []) rest

  abbrev parse_group :
      Text × Option Text → Outcome Misnamed (List Group) → Outcome Misnamed (List Group)
  unfolding trim_space split byte_length patterns_of
  parse_group (n, none) rest = err no_name
  parse_group (n, some pats) rest =
      let name = trim_space n in
      if is_empty name || ltb 40 (byte_length name)
      then err no_name
      else cons_group name (patterns_of (split 44 pats)) rest

  unfoldable pub parse_parts : List Text → Outcome Misnamed (List Group)
  unfolding trim_space cut parse_group
  parse_parts [] = ok []
  parse_parts (q ∷ qs) =
      let part = trim_space q in
      let rest = parse_parts qs in if is_empty part then rest else parse_group (cut 61 part) rest

  unfoldable pub parse_groups : Text → Outcome Misnamed (List Group)
  unfolding split parse_parts
  parse_groups s = parse_parts (split 59 s)

abbrev checked : Outcome Misnamed (List Group) → Outcome Field (Unit {0})
checked (err e) = err (groups e)
checked (ok gs) = ok tt

module _ (fl : Floats) where
  pub record SizingParams : Type 0 where
    pub basis : Text
    pub powered_off : Bool
    pub growth : fl.F
    pub ratio : fl.F
    pub cpu_target : fl.F
    pub mem_target : fl.F
    pub spares : ℤ
    pub sockets : ℤ
    pub uplift : fl.F
    pub free_space : fl.F
    pub groups : Text

  abbrev pub default_sizing : SizingParams
  default_sizing = record {
    basis = codes "provisioned";
    powered_off = false;
    growth = fl.of_int 20;
    ratio = fl.of_int 0;
    cpu_target = fl.of_int 70;
    mem_target = fl.of_int 90;
    spares = pos 1;
    sockets = pos 2;
    uplift = fl.of_int 0;
    free_space = fl.of_int 20;
    groups = [];
  }

  abbrev outside : fl.F → ℕ → ℕ → Bool
  outside v lo hi = fl.lt v (fl.of_int lo) || fl.lt (fl.of_int hi) v

  abbrev outside_int : ℤ → ℕ → ℕ → Bool
  outside_int v lo hi = ltℤ v (pos lo) || ltℤ (pos hi) v

  abbrev is_zero : fl.F → Bool
  is_zero v = fl.le v (fl.of_int 0) && fl.le (fl.of_int 0) v

  unfoldable pub validate : Matching → SizingParams → Outcome Field (Unit {0})
  unfolding text_eq byte_length parse_groups
  validate mt p =
      if not (text_eq p.basis (codes "provisioned")) && not (text_eq p.basis (codes "rightsized"))
      then err basis
      else (if outside p.growth 0 300
          then err growth
          else (if not (is_zero p.ratio) && outside p.ratio 1 32
              then err ratio
              else (if outside p.cpu_target 20 100
                  then err cpu_target
                  else (if outside p.mem_target 50 100
                      then err mem_target
                      else (if outside_int p.spares 0 4
                          then err spares
                          else (if outside_int p.sockets 1 2
                              then err sockets
                              else (if outside p.uplift 0 200
                                  then err uplift
                                  else (if outside p.free_space 0 60
                                      then err free_space
                                      else (if ltb 1000 (byte_length p.groups)
                                          then err group_length
                                          else checked (parse_groups mt p.groups))))))))))

  pub data Failure : Type 0 where
    invalid : Field → Failure
    unencodable unreadable : Failure
    unsaved : List Atomicfile.Error → Failure

  -- `sizingFile`, encoded and decoded; JSON has no NaN
  pub record Codec : Type 0 where
    pub marshal : SizingParams → Option Text
    pub unmarshal : Text → Option SizingParams

  -- The engine's parameters, and their file.
  pub record Kept : Type 0 where
    pub sizing : SizingParams
    pub disk : Disk

  -- The rest of a call behind `WriteFile`.
  abbrev pub after_write :
      SizingParams → Kept × List Atomicfile.Error → Kept × Outcome Failure (Unit {0})
  after_write p (k, []) = (record k { sizing = p }, ok tt)
  after_write p (k, e ∷ es) = (k, err (unsaved (e ∷ es)))

  abbrev pub write_params : Faults → Text → Kept → Kept × List Atomicfile.Error
  unfolding write_file
  write_params x b k =
      let (m, errors) = write_file x b (start k.disk) in (record k { disk = m.now }, errors)

  abbrev pub encoded :
      Faults → SizingParams → Kept → Option Text → Kept × Outcome Failure (Unit {0})
  unfolding write_params
  encoded x p k none = (k, err unencodable)
  encoded x p k (some b) = after_write p (write_params x b k)

  abbrev pub validated :
      Codec
      → Faults
      → SizingParams
      → Kept
      → Outcome Field (Unit {0})
      → Kept × Outcome Failure (Unit {0})
  unfolding encoded
  validated cd x p k (err f) = (k, err (invalid f))
  validated cd x p k (ok u) = encoded x p k (cd.marshal p)

  unfoldable pub set_sizing_params :
      Codec → Matching → Faults → SizingParams → Kept → Kept × Outcome Failure (Unit {0})
  unfolding validated validate
  set_sizing_params cd mt x p k = validated cd x p k (validate mt p)

  -- `preserve` sets the file aside; its rename can fail.
  abbrev pub preserved : Bool → Kept → Kept × Outcome Failure (Unit {0})
  preserved rename_fails k =
      if rename_fails
      then (k, err unreadable)
      else (let d = k.disk in (record k { disk = record d { current = none } }, ok tt))

  abbrev pub admitted :
      Bool → Kept → SizingParams → Outcome Field (Unit {0}) → Kept × Outcome Failure (Unit {0})
  admitted rename_fails k p (err f) = preserved rename_fails k
  admitted rename_fails k p (ok u) = (record k { sizing = p }, ok tt)

  abbrev pub decoded :
      Matching → Bool → Kept → Option SizingParams → Kept × Outcome Failure (Unit {0})
  unfolding validate
  decoded mt rename_fails k none = preserved rename_fails k
  decoded mt rename_fails k (some p) = admitted rename_fails k p (validate mt p)

  abbrev pub load_from :
      Codec → Matching → Bool → Bool → Kept → Option Inode → Kept × Outcome Failure (Unit {0})
  unfolding decoded
  load_from cd mt read_fails rename_fails k none = (k, ok tt)
  load_from cd mt read_fails rename_fails k (some i) =
      if read_fails then (k, err unreadable) else decoded mt rename_fails k (cd.unmarshal i.bytes)

  -- `loadSizing`, by the engine that starts
  unfoldable pub load_sizing :
      Codec → Matching → Bool → Bool → Disk → Kept × Outcome Failure (Unit {0})
  unfolding load_from
  load_sizing cd mt read_fails rename_fails d =
      load_from cd mt read_fails rename_fails (record { sizing = default_sizing; disk = d })
        d.current
