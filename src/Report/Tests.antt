-- ===== src/Report/Tests.antt =====
-- A report shared, downloaded and shared again, and the theorems at it.
use rightsizer.Prelude.{ℕ, ◌≡◌, ◌≢◌, refl, false, some, [], ◌∷◌, arith, pos, ◌+ℤ◌}
use rightsizer.Text.{Text, codes}
use rightsizer.Text.Equality.{text_eq}
use rightsizer.Text.Strings.Laws.{Lacks}
use rightsizer.Map.{lookup, insert, delete}
use rightsizer.Report.{
  Entry, Server, Share, Setup, started, start, drop, drop_each, base, join_host_port, link,
  add_files, shared_files, new_share, serve, not_found, file, handle,
}
use rightsizer.Report.Shares.{IsSound, serves, stops, asks, run, run-IsSound}
use rightsizer.Report.Links.{link_path, serve-handle}

base_file : base (codes "/data/reports/r.pdf") ≡ codes "r.pdf"
unfolding base
base_file = refl

base_root : base (codes "//") ≡ codes "/"
unfolding base
base_root = refl

host_v6 : join_host_port (codes "::1") (codes "8443") ≡ codes "[::1]:8443"
unfolding join_host_port
host_v6 = refl

abbrev fresh : Server
fresh = record {
  public_host = codes "h";
  public_port = [];
  ttl = pos 60;
  listening = false;
  port = [];
  fp = [];
  shares = [];
}

abbrev setup : Text → Setup
setup token = record { now = pos 1000; start = started (codes "8443") (codes "AB"); token = token }

abbrev vc1 : Text
vc1 = codes "vc1"

abbrev first : Server
first = (serve (setup (codes "T1")) vc1 (codes "/r/a.pdf") [] fresh).0

abbrev shared : Share
shared = record {
  id = codes "T2";
  source = vc1;
  url = codes "https://h:8443/T2/b.pdf";
  fingerprint = codes "AB";
  expires = pos 1060;
  file = codes "b.pdf";
  downloads = 0;
  extra = [];
}

served : (serve (setup (codes "T2")) vc1 (codes "/r/b.pdf") [] first).1 ≡ some shared
unfolding serve drop_each drop start new_share link join_host_port base shared_files add_files
    lookup insert delete text_eq ◌+ℤ◌
served = refl

plain : Lacks b'/' (codes "T2")
plain = (λ e. omega (arith, e), (λ e. omega (arith, e), tt))

serve-handle_example :
    let s' = (serve (setup (codes "T2")) vc1 (codes "/r/b.pdf") [] first).0 in
    ((name : Text) (c : ℕ) (p : Text)
      → lookup name (shared_files (codes "/r/b.pdf") []) ≡ some (c ∷ p)
      → (handle (codes "GET") (link_path (codes "T2") name) s').1 ≡ file (c ∷ p) name)
    × ((tok name : Text) (e : Entry)
        → Lacks b'/' tok
        → tok ≢ codes "T2"
        → lookup tok first.shares ≡ some e
        → e.share.source ≡ vc1
        → (handle (codes "GET") (link_path tok name) s').1 ≡ not_found)
serve-handle_example =
    serve-handle (setup (codes "T2")) vc1 (codes "/r/b.pdf") [] first shared served plain

fresh-IsSound : IsSound fresh
unfolding lookup
fresh-IsSound = (refl, λ j k d e l r h. absurd (cc))

run-IsSound_example : IsSound (
    run
      (serves (setup (codes "T1")) vc1 (codes "/r/a.pdf") []
        ∷ asks (codes "GET") (codes "/T1/a.pdf")
        ∷ stops []
        ∷ [])
      fresh)
run-IsSound_example =
    run-IsSound
      (serves (setup (codes "T1")) vc1 (codes "/r/a.pdf") []
        ∷ asks (codes "GET") (codes "/T1/a.pdf")
        ∷ stops []
        ∷ [])
      fresh fresh-IsSound
