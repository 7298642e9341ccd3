-- ===== src/Config/Upload.antt =====
-- upload_identity.go and `NormalizeUploadConfig` of migrate.go: the SFTP account of a camera. `lower` is
-- the lower case of one character.
use aviationwx_bridge.Prelude.{
  Bool, List, Option, [], false, if◌then◌else◌, leb, none, some, suc, true, zero, ℕ, ◌&&◌, ◌++◌,
  ◌==◌, ◌||◌, ◌∷◌,
}
use aviationwx_bridge.Queue.Names.{Int64, Name, decimal, name_eq, neg, pos}
use aviationwx_bridge.Config.Values.{Camera, Upload, is_zero_int}

-- unicode.IsSpace
abbrev pub is_space : ℕ → Bool
is_space c =
    leb 9 c && leb c 13
    || c == 32
    || c == 133
    || c == 160
    || c == 5760
    || leb 8192 c && leb c 8202
    || c == 8232
    || c == 8233
    || c == 8239
    || c == 8287
    || c == 12288

abbrev pub trim_left : Name → Name
trim_left [] = []
trim_left (c ∷ s) = let rest = trim_left s in if is_space c then rest else c ∷ s

abbrev pub cons_trim : ℕ → Name → Name
cons_trim c [] = if is_space c then [] else c ∷ []
cons_trim c (d ∷ s) = c ∷ d ∷ s

abbrev pub trim_end : Name → Name
trim_end [] = []
trim_end (c ∷ s) = cons_trim c (trim_end s)

-- strings.TrimSpace
unfoldable pub trim_space : Name → Name
trim_space s = trim_end (trim_left s)

-- strings.ToLower
abbrev pub lower_case : (ℕ → ℕ) → Name → Name
lower_case lower [] = []
lower_case lower (c ∷ s) = lower c ∷ lower_case lower s

unfoldable pub normalize_upload_port : Int64 → ℕ
normalize_upload_port (pos zero) = 2222
normalize_upload_port (pos (suc n)) = suc n
normalize_upload_port (neg n) = 2222

-- the text host:port:user
abbrev pub identity_text : Name → ℕ → Name → Name
identity_text host port username = host ++ (b':' ∷ (decimal port ++ (b':' ∷ username)))

-- `UploadIdentityKey`; the empty text stands for an incomplete account
unfoldable pub upload_identity_key : (ℕ → ℕ) → Name → Int64 → Name → Name
upload_identity_key lower host port username =
    let host_key = trim_space (lower_case lower host) in
    let user_key = trim_space username in
    if name_eq host_key [] || name_eq user_key []
    then []
    else identity_text host_key (normalize_upload_port port) user_key

-- `uploadIdentityKey`
unfoldable pub identity_of : (ℕ → ℕ) → Option Upload → Name
identity_of lower none = []
identity_of lower (some u) = upload_identity_key lower u.host u.port u.username

-- the loop of `checkDuplicateUpload` over the other cameras; true for the error
unfoldable pub duplicate_loop : (ℕ → ℕ) → Name → Name → List (Name × Camera) → Bool
duplicate_loop lower exclude key [] = false
duplicate_loop lower exclude key (p ∷ ps) =
    let rest = duplicate_loop lower exclude key ps in
    if name_eq p.0 exclude
    then rest
    else if name_eq (identity_of lower p.1.upload) key
    then true
    else rest

-- `checkDuplicateUpload`; an other camera without upload settings has the empty identity, which is no
-- key that the loop is called with
unfoldable pub check_duplicate_upload : (ℕ → ℕ) → Name → Option Upload → List (Name × Camera) → Bool
check_duplicate_upload lower exclude u cameras =
    let key = identity_of lower u in
    let found = duplicate_loop lower exclude key cameras in if name_eq key [] then false else found

-- "sftp", "ftps" and "ftp"
abbrev pub sftp : Name
sftp = b's' ∷ b'f' ∷ b't' ∷ b'p' ∷ []

abbrev pub ftps : Name
ftps = b'f' ∷ b't' ∷ b'p' ∷ b's' ∷ []

abbrev pub ftp : Name
ftp = b'f' ∷ b't' ∷ b'p' ∷ []

-- 21, 2121 and 990
abbrev pub is_ftp_port : Int64 → Bool
is_ftp_port (pos n) = n == 21 || n == 2121 || n == 990
is_ftp_port (neg n) = false

abbrev pub or_default : Int64 → Int64 → Int64
or_default n d = if is_zero_int n then d else n

-- the switch over the protocol
unfoldable pub migrate_protocol : (ℕ → ℕ) → Upload → Upload
migrate_protocol lower u =
    let protocol = lower_case lower (trim_space u.protocol) in
    let port = if is_ftp_port u.port then pos 2222 else u.port in
    if name_eq protocol [] || name_eq protocol ftps || name_eq protocol ftp
    then record u { protocol = sftp; port = port }
    else u

unfoldable pub normalize_upload_config : (ℕ → ℕ) → Upload → Upload
normalize_upload_config lower u0 =
    let u = migrate_protocol lower u0 in
    record u {
      port = or_default u.port (pos 2222);
      timeout_connect_seconds = or_default u.timeout_connect_seconds (pos 60);
      timeout_upload_seconds = or_default u.timeout_upload_seconds (pos 300);
    }
