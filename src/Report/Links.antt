-- ===== src/Report/Links.antt =====
-- What a link of internal/report/server.go leads to.
use rightsizer.Prelude.{
  ℕ, ◌+ℤ◌, ◌≡◌, ◌≢◌, refl, ap, ◌∙◌, Bool, true, false, none, some, List, ◌∷◌, ◌++◌, arith,
  Option-cases, inl, inr,
}
use rightsizer.Text.{Text, codes}
use rightsizer.Text.Equality.{text_eq, text_eq_iff}
use rightsizer.Text.Strings.{trim_prefix}
use rightsizer.Text.Strings.Laws.{Lacks, cut-append}
use rightsizer.Map.{lookup, insert, lookup-insert}
use rightsizer.Report.{
  Entry, Server, Share, Setup, drop_each, new_share, share_files, ensure_started, serve,
  shared_files, not_found, file, found, in_entry, handle,
}
use rightsizer.Report.Shares.{lookup-drop_each, ensure_started_cases, drop_each-NoneLeft}

-- The path of a link.
abbrev pub link_path : Text → Text → Text
link_path tok name = codes "/" ++ (tok ++ (codes "/" ++ name))

trim-link : (tok name : Text) → trim_prefix (codes "/") (link_path tok name) ≡ tok ++ b'/' ∷ name
unfolding trim_prefix
trim-link tok name = refl

get_link :
    (tok name : Text) (s : Server)
    → Lacks b'/' tok
    → handle (codes "GET") (link_path tok name) s ≡ in_entry tok name s (lookup tok s.shares)
unfolding handle text_eq
get_link tok name s h = rw (trim-link tok name, cut-append b'/' tok name h) refl

get_file :
    (tok name : Text) (c : ℕ) (p : Text) (e : Entry) (s : Server)
    → Lacks b'/' tok
    → lookup tok s.shares ≡ some e
    → lookup name e.files ≡ some (c ∷ p)
    → (handle (codes "GET") (link_path tok name) s).1 ≡ file (c ∷ p) name
get_file tok name c p e s h l k =
    ap (λ r. r.1) (get_link tok name s h)
    ∙ ap (λ o. (in_entry tok name s o).1) l
    ∙ ap (λ o. (found tok name e s o).1) k

get_nothing :
    (tok name : Text) (s : Server)
    → Lacks b'/' tok
    → lookup tok s.shares ≡ none
    → (handle (codes "GET") (link_path tok name) s).1 ≡ not_found
get_nothing tok name s h l =
    ap (λ r. r.1) (get_link tok name s h) ∙ ap (λ o. (in_entry tok name s o).1) l

shared_entry :
    (x : Setup) (source path : Text) (extra : List Text) (r : Server × Bool) (share : Share)
    → (share_files x source path extra r).1 ≡ some share
    → let s' = (share_files x source path extra r).0 in
      (s'.shares
        ≡ insert x.token (record { share = share; files = shared_files path extra }) r.0.shares)
      × (share.source ≡ source)
      × (share.expires ≡ x.now +ℤ r.0.ttl)
unfolding new_share
shared_entry x source path extra (s, true) share h = (cc, cc, cc)
shared_entry x source path extra (s, false) share h = cc

-- No entry of a source is left after the loop of `serve`.
gone :
    (source tok : Text) (e : Entry) (s : Server)
    → lookup tok s.shares ≡ some e
    → e.share.source ≡ source
    → lookup tok (drop_each (λ d. text_eq d.share.source source) s.shares s).shares ≡ none
gone source tok e s l h =
    let p : Entry → Bool = λ d. text_eq d.share.source source in
    elim (Option-cases (lookup tok (drop_each p s.shares s).shares)) [
      | inl n ↦ n
      | inr (d, k) ↦
          let (here, test) = lookup-drop_each p s.shares s tok d k in
          absurd (drop_each-NoneLeft source s tok d k (ground (arith, here, l, h)))
    ]

-- After `Serve` without an error, a request of the new link with the name of a file of the share gets
-- that file, and every link of an earlier share of the same source finds nothing.
pub serve-handle :
    (x : Setup) (source path : Text) (extra : List Text) (s : Server) (share : Share)
    → (serve x source path extra s).1 ≡ some share
    → Lacks b'/' x.token
    → let s' = (serve x source path extra s).0 in
      ((name : Text) (c : ℕ) (p : Text)
        → lookup name (shared_files path extra) ≡ some (c ∷ p)
        → (handle (codes "GET") (link_path x.token name) s').1 ≡ file (c ∷ p) name)
      × ((tok name : Text) (e : Entry)
          → Lacks b'/' tok
          → tok ≢ x.token
          → lookup tok s.shares ≡ some e
          → e.share.source ≡ source
          → (handle (codes "GET") (link_path tok name) s').1 ≡ not_found)
unfolding serve
serve-handle x source path extra s share h plain =
    let p : Entry → Bool = λ e. text_eq e.share.source source in
    let s1 = drop_each p s.shares s in
    let (same, on, off) = ensure_started_cases x.start s1 in
    let (m, k, t) = shared_entry x source path extra (ensure_started x.start s1) share h in
    let b : Entry = record { share = share; files = shared_files path extra } in
    (
      λ name c q l.
          get_file x.token name c q b (serve x source path extra s).0 plain
            (ap (lookup x.token) m
              ∙ lookup-insert x.token x.token b (ensure_started x.start s1).0.shares
              ∙ rw ((text_eq_iff x.token x.token).1 refl) refl)
            l,
      λ tok name e lacks apart l k. get_nothing tok name (serve x source path extra s).0 lacks (
          ap (lookup tok) m
          ∙ lookup-insert x.token tok b (ensure_started x.start s1).0.shares
          ∙ ground (arith, text_eq_iff x.token tok, apart, same, gone source tok e s l k)),
    )
