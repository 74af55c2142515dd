-- ===== src/Report.antt =====
-- internal/report/server.go: the HTTPS server that shares reports by links that expire.
--
-- Starting the listener is an input: it fails, or gives its port and the certificate's fingerprint.
-- The random token is an input too. Each call holds the mutex, so each is a step; the timer of a
-- share is a later call of `stop`. TLS, the headers and the file's content are left out.
pub mod Shares
pub mod Links
mod Tests
use rightsizer.Prelude.{
  ℕ, ◌+◌, Bool, true, false, Option, none, some, List, [], ◌∷◌, ◌++◌, if◌then◌else◌, ◌&&◌, ◌||◌,
  not, ◌==◌, ℤ, ◌+ℤ◌, take, Outcome, ok, err,
}
use rightsizer.Text.{Text, codes}
use rightsizer.Text.Equality.{text_eq}
use rightsizer.Text.Strings.{trim_prefix, cut, has}
use rightsizer.Map.{Map, lookup, insert, delete}

pub record Link : Type 0 where
  pub name : Text
  pub url : Text

pub record Share : Type 0 where
  pub id : Text
  pub source : Text
  pub url : Text
  pub fingerprint : Text
  pub expires : ℤ
  pub file : Text
  pub downloads : ℕ
  pub extra : List Link

pub record Entry : Type 0 where
  pub share : Share
  pub files : Map Text

pub record Server : Type 0 where
  pub public_host : Text
  pub public_port : Text
  pub ttl : ℤ
  -- whether `srv` is set
  pub listening : Bool
  pub port : Text
  pub fp : Text
  pub shares : Map Entry

abbrev pub is_empty : {A : Type 0} → List A → Bool
is_empty [] = true
is_empty (x ∷ xs) = false

abbrev trim_slashes : Text → Text
trim_slashes [] = []
trim_slashes (c ∷ t) = let r = trim_slashes t in if is_empty r && c == b'/' then [] else c ∷ r

abbrev after_slash : Text → Text
after_slash [] = []
after_slash (c ∷ t) =
    let r = after_slash t in if has b'/' t then r else if c == b'/' then t else c ∷ t

abbrev or_root : Text → Text
or_root [] = codes "/"
or_root (c ∷ t) = c ∷ t

-- `filepath.Base`
unfoldable pub base : Text → Text
base [] = codes "."
base (c ∷ t) = or_root (after_slash (trim_slashes (c ∷ t)))

-- `net.JoinHostPort`
unfoldable pub join_host_port : Text → Text → Text
join_host_port host port =
    if has b':' host
    then codes "[" ++ (host ++ (codes "]:" ++ port))
    else host ++ (codes ":" ++ port)

-- A started listener: its port and the fingerprint of its certificate.
pub data Started : Type 0 where
  started : Text → Text → Started
  start_fails : Started

abbrev non_empty_or : Text → Text → Text
non_empty_or [] t = t
non_empty_or (c ∷ s) t = c ∷ s

unfoldable pub start : Started → Server → Server × Bool
start start_fails s = (s, false)
start (started port fp) s =
    (record s { listening = true; port = non_empty_or s.public_port port; fp = fp }, true)

-- The listener is shut down with the last share.
abbrev pub close_if_last : Server → Server
close_if_last s = record s { listening = not (is_empty s.shares) && s.listening }

unfoldable pub drop : Text → Server → Server
drop tok s = elim (lookup tok s.shares) [
  | none ↦ s
  | some e ↦ close_if_last (record s { shares = delete tok s.shares })
]

abbrev pub drop_if : Bool → Text → Server → Server
drop_if true tok s = drop tok s
drop_if false tok s = s

-- The loops over the shares of `Serve` and `Stop`.
unfoldable pub drop_each : (Entry → Bool) → Map Entry → Server → Server
drop_each p [] s = s
drop_each p ((tok, e) ∷ m) s = drop_each p m (drop_if (p e) tok s)

unfoldable pub stop : Text → Server → Server
stop id s = drop_each (λ e. is_empty id || text_eq e.share.id id) s.shares s

-- What a call of `Serve` meets.
pub record Setup : Type 0 where
  pub now : ℤ
  pub start : Started
  pub token : Text

unfoldable pub link : Server → Text → Text → Text
link s tok name =
    codes "https://"
    ++ (join_host_port s.public_host s.port ++ (codes "/" ++ (tok ++ (codes "/" ++ name))))

-- The files of a share: a later one with the same name takes the place of an earlier one.
unfoldable pub add_files : List Text → Map Text → Map Text
add_files [] m = m
add_files (p ∷ ps) m = add_files ps (insert (base p) p m)

unfoldable pub shared_files : Text → List Text → Map Text
shared_files path extra = add_files extra ((base path, path) ∷ [])

abbrev extra_links : Server → Text → List Text → List Link
extra_links s tok [] = []
extra_links s tok (p ∷ ps) =
    record { name = base p; url = link s tok (base p) } ∷ extra_links s tok ps

unfoldable pub new_share : Setup → Text → Text → List Text → Server → Share
new_share x source path extra s = record {
  id = take 8 x.token;
  source = source;
  url = link s x.token (base path);
  fingerprint = s.fp;
  expires = x.now +ℤ s.ttl;
  file = base path;
  downloads = 0;
  extra = extra_links s x.token extra;
}

abbrev pub share_files : Setup → Text → Text → List Text → Server × Bool → Server × Option Share
share_files x source path extra (s, false) = (s, none)
share_files x source path extra (s, true) =
    let share = new_share x source path extra s in
    (
      record s {
        shares =
            insert x.token (record { share = share; files = shared_files path extra }) s.shares;
      },
      some share,
    )

abbrev pub ensure_started : Started → Server → Server × Bool
ensure_started st s = if s.listening then (s, true) else start st s

-- `Serve`; there is no share if the listener cannot be started.
unfoldable pub serve : Setup → Text → Text → List Text → Server → Server × Option Share
serve x source path extra s =
    share_files x source path extra
      (ensure_started x.start (drop_each (λ e. text_eq e.share.source source) s.shares s))

pub data Response : Type 0 where
  method_not_allowed not_found : Response
  -- the file that is opened, and the name it is sent under
  file : Text → Text → Response

abbrev pub count_download : Entry → Entry
count_download e = record e { share = record (e.share) { downloads = e.share.downloads + 1 } }

abbrev pub found : Text → Text → Entry → Server → Option Text → Server × Response
found tok name e s none = (s, not_found)
found tok name e s (some []) = (s, not_found)
found tok name e s (some (c ∷ path)) =
    (record s { shares = insert tok (count_download e) s.shares }, file (c ∷ path) name)

abbrev pub in_entry : Text → Text → Server → Option Entry → Server × Response
in_entry tok name s none = (s, not_found)
in_entry tok name s (some e) = found tok name e s (lookup name e.files)

abbrev pub find : Server → Text × Option Text → Server × Response
find s (tok, none) = (s, not_found)
find s (tok, some name) = in_entry tok name s (lookup tok s.shares)

-- `handle`, up to the opening of the file
unfoldable pub handle : Text → Text → Server → Server × Response
handle method path s =
    if text_eq method (codes "GET") || text_eq method (codes "HEAD")
    then find s (cut b'/' (trim_prefix (codes "/") path))
    else (s, method_not_allowed)
