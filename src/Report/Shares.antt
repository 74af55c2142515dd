-- ===== src/Report/Shares.antt =====
-- The shares of internal/report/server.go: when the listener runs, and how many shares a source has.
use rightsizer.Prelude.{
  ◌≡◌, ◌≢◌, refl, sym, ap, Bool, true, false, Option, none, some, List, [], ◌∷◌, arith, not, ◌&&◌,
  ◌||◌, if◌then◌else◌, Bool-cases, Option-cases, inl, inr, ◌∙◌,
}
use rightsizer.Text.{Text, codes}
use rightsizer.Text.Equality.{text_eq, text_eq_iff}
use rightsizer.Text.Strings.{cut, trim_prefix}
use rightsizer.Map.{Map, lookup, insert, lookup-insert, lookup-delete}
use rightsizer.Report.{
  Entry, Server, is_empty, Started, start, drop, drop_if, drop_each, stop, Setup, new_share,
  share_files, ensure_started, serve, shared_files, count_download, found, in_entry, find, handle,
}

-- The listener runs exactly while there is a share.
abbrev pub IsConsistent : Server → Type 0
IsConsistent s = s.listening ≡ not (is_empty s.shares)

-- A source has at most one share.
abbrev pub OneShare : Map Entry → Type 0
OneShare m =
    (j k : Text) (d e : Entry)
    → lookup j m ≡ some d
    → lookup k m ≡ some e
    → d.share.source ≡ e.share.source
    → j ≡ k

lookup-nonempty : (k : Text) (m : Map Entry) (e : Entry) → lookup k m ≡ some e → is_empty m ≡ false
unfolding lookup
lookup-nonempty k [] e h = cc
lookup-nonempty k (x ∷ m) e h = refl

insert-nonempty : (k : Text) (e : Entry) (m : Map Entry) → is_empty (insert k e m) ≡ false
unfolding insert
insert-nonempty k e [] = refl
insert-nonempty k e ((j, d) ∷ m) = ground arith

drop-IsConsistent : (tok : Text) (s : Server) → IsConsistent s → IsConsistent (drop tok s)
unfolding drop
drop-IsConsistent tok s h = elim (Option-cases (lookup tok s.shares)) [
  | inr (e, l) ↦ ground (arith, l, h, lookup-nonempty tok s.shares e l)
  | inl n ↦ ground (arith, n, h)
]

drop_if-IsConsistent :
    (b : Bool) (tok : Text) (s : Server) → IsConsistent s → IsConsistent (drop_if b tok s)
drop_if-IsConsistent true tok s h = drop-IsConsistent tok s h
drop_if-IsConsistent false tok s h = h

drop_each-IsConsistent :
    (p : Entry → Bool) (m : Map Entry) (s : Server)
    → IsConsistent s
    → IsConsistent (drop_each p m s)
unfolding drop_each
drop_each-IsConsistent p [] s h = h
drop_each-IsConsistent p ((tok, e) ∷ m) s h =
    drop_each-IsConsistent p m (drop_if (p e) tok s) (drop_if-IsConsistent (p e) tok s h)

lookup-drop :
    (tok k : Text) (s : Server)
    → lookup k (drop tok s).shares ≡ (if text_eq tok k then none else lookup k s.shares)
unfolding drop
lookup-drop tok k s = elim (Option-cases (lookup tok s.shares)) [
  | inr (e, l) ↦ ground (arith, l, lookup-delete tok k s.shares)
  | inl n ↦ ground (arith, n, text_eq_iff tok k)
]

lookup-drop_if :
    (b : Bool) (tok k : Text) (s : Server)
    → lookup k (drop_if b tok s).shares ≡ (if b && text_eq tok k then none else lookup k s.shares)
lookup-drop_if true tok k s = lookup-drop tok k s
lookup-drop_if false tok k s = refl

-- What the loop leaves was there, and does not pass the test.
pub lookup-drop_each :
    (p : Entry → Bool) (m : Map Entry) (s : Server) (k : Text) (e : Entry)
    → lookup k (drop_each p m s).shares ≡ some e
    → (lookup k s.shares ≡ some e) × (lookup k m ≡ some e → p e ≡ false)
unfolding drop_each lookup
lookup-drop_each p [] s k e h = (h, λ n. cc)
lookup-drop_each p ((tok, d) ∷ m) s k e h =
    let (here, test) = lookup-drop_each p m (drop_if (p d) tok s) k e h in
    ground (arith, lookup-drop_if (p d) tok k s, here, test)

drop_each-OneShare :
    (p : Entry → Bool) (m : Map Entry) (s : Server)
    → OneShare s.shares
    → OneShare (drop_each p m s).shares
drop_each-OneShare p m s one j k d e l r h =
    one j k d e (lookup-drop_each p m s j d l).0 (lookup-drop_each p m s k e r).0 h

insert-OneShare :
    (tok : Text) (b : Entry) (m : Map Entry)
    → ((k : Text) (e : Entry) → lookup k m ≡ some e → e.share.source ≡ b.share.source → k ≡ tok)
    → OneShare m
    → OneShare (insert tok b m)
insert-OneShare tok b m apart one j k d e l r h = ground (
  arith,
  one j k d e,
  lookup-insert tok j b m,
  lookup-insert tok k b m,
  text_eq_iff tok j,
  text_eq_iff tok k,
  apart j d,
  apart k e,
)

-- The listener and the shares are as they should be.
abbrev pub IsSound : Server → Type 0
IsSound s = IsConsistent s × OneShare s.shares

-- The listener runs behind `ensure_started`, or nothing has changed; the shares are the same.
pub ensure_started_cases :
    (st : Started) (s : Server)
    → let (s', b) = ensure_started st s in
      (s'.shares ≡ s.shares) × (b ≡ true → s'.listening ≡ true) × (b ≡ false → s' ≡ s)
unfolding start
ensure_started_cases st s = ground arith

-- No share of the source is left.
abbrev pub NoneLeft : Text → Map Entry → Type 0
NoneLeft source m = (k : Text) (e : Entry) → lookup k m ≡ some e → e.share.source ≢ source

share_files-IsSound :
    (x : Setup) (source path : Text) (extra : List Text) (s : Server) (r : Server × Bool)
    → IsSound s
    → NoneLeft source s.shares
    → r.0.shares ≡ s.shares
    → (r.1 ≡ true → r.0.listening ≡ true)
    → (r.1 ≡ false → r.0 ≡ s)
    → IsSound (share_files x source path extra r).0
unfolding new_share
share_files-IsSound x source path extra s (s', false) sound left same on off = rw (off refl) sound
share_files-IsSound x source path extra s (s', true) (c, one) left same on off =
    let b : Entry = record {
      share = new_share x source path extra s';
      files = shared_files path extra;
    } in
    (
      on refl ∙ sym (ap not (insert-nonempty x.token b s'.shares)),
      insert-OneShare x.token b s'.shares
          (λ k e l h. absurd (left k e (ap (lookup k) (sym same) ∙ l) h))
          (λ j k d e l r h.
            one j k d e (ap (lookup j) (sym same) ∙ l) (ap (lookup k) (sym same) ∙ r) h),
    )

stop-IsSound : (id : Text) (s : Server) → IsSound s → IsSound (stop id s)
unfolding stop
stop-IsSound id s (c, one) =
    let p : Entry → Bool = λ e. is_empty id || text_eq e.share.id id in
    (drop_each-IsConsistent p s.shares s c, drop_each-OneShare p s.shares s one)

pub drop_each-NoneLeft :
    (source : Text) (s : Server)
    → NoneLeft source (drop_each (λ e. text_eq e.share.source source) s.shares s).shares
drop_each-NoneLeft source s k e l h =
    let (here, test) = lookup-drop_each (λ d. text_eq d.share.source source) s.shares s k e l in
    ground (arith, test here, text_eq_iff e.share.source source, h)

serve-IsSound :
    (x : Setup) (source path : Text) (extra : List Text) (s : Server)
    → IsSound s
    → IsSound (serve x source path extra s).0
unfolding serve
serve-IsSound x source path extra s (c, one) =
    let p : Entry → Bool = λ e. text_eq e.share.source source in
    let s' = drop_each p s.shares s in
    let (same, on, off) = ensure_started_cases x.start s' in
    share_files-IsSound x source path extra s' (ensure_started x.start s')
      (drop_each-IsConsistent p s.shares s c, drop_each-OneShare p s.shares s one)
      (drop_each-NoneLeft source s) same on off

found-IsSound :
    (tok name : Text) (e : Entry) (s : Server) (o : Option Text)
    → IsSound s
    → lookup tok s.shares ≡ some e
    → IsSound (found tok name e s o).0
found-IsSound tok name e s none h l = h
found-IsSound tok name e s (some []) h l = h
found-IsSound tok name e s (some (x ∷ path)) (c, one) l = (
  c
      ∙ ap not (lookup-nonempty tok s.shares e l)
      ∙ sym (ap not (insert-nonempty tok (count_download e) s.shares)),
  insert-OneShare tok (count_download e) s.shares (λ k d r h. one k tok d e r l h) one,
)

in_entry-IsSound :
    (tok name : Text) (s : Server) (o : Option Entry)
    → IsSound s
    → lookup tok s.shares ≡ o
    → IsSound (in_entry tok name s o).0
in_entry-IsSound tok name s none h l = h
in_entry-IsSound tok name s (some e) h l = found-IsSound tok name e s (lookup name e.files) h l

find-IsSound : (s : Server) (p : Text × Option Text) → IsSound s → IsSound (find s p).0
find-IsSound s (tok, none) h = h
find-IsSound s (tok, some name) h = in_entry-IsSound tok name s (lookup tok s.shares) h refl

handle-IsSound : (method path : Text) (s : Server) → IsSound s → IsSound (handle method path s).0
unfolding handle
handle-IsSound method path s h =
    elim (Bool-cases (text_eq method (codes "GET") || text_eq method (codes "HEAD"))) [
      | inl e ↦ rw e (find-IsSound s (cut b'/' (trim_prefix (codes "/") path)) h)
      | inr e ↦ rw e h
    ]

-- What happens at the server: `Serve`, `Stop` (called, or by the timer), and a request.
pub data Event : Type 0 where
  serves : Setup → Text → Text → List Text → Event
  stops : Text → Event
  asks : Text → Text → Event

abbrev pub step : Event → Server → Server
step (serves x source path extra) s = (serve x source path extra s).0
step (stops id) s = stop id s
step (asks method path) s = (handle method path s).0

pub run : List Event → Server → Server
run [] s = s
run (e ∷ es) s = run es (step e s)

step-IsSound : (e : Event) (s : Server) → IsSound s → IsSound (step e s)
step-IsSound (serves x source path extra) s h = serve-IsSound x source path extra s h
step-IsSound (stops id) s h = stop-IsSound id s h
step-IsSound (asks method path) s h = handle-IsSound method path s h

-- Whatever is shared, stopped and requested, the listener runs exactly while there is a share, and no
-- source has two shares.
pub run-IsSound : (es : List Event) (s : Server) → IsSound s → IsSound (run es s)
unfolding run
run-IsSound [] s h = h
run-IsSound (e ∷ es) s h = run-IsSound es (step e s) (step-IsSound e s h)
