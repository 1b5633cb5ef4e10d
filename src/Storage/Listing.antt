-- ===== src/Storage/Listing.antt =====
-- `FaceStorageManager::loadAllTemplatesForUser`: the templates of a user by the names of the files.
use android_vendor_extra_fac.Common.{
  ℕ, zero, suc, ◌+◌, ◌-◌, ◌*◌, Bool, false, not, ◌&&◌, ◌||◌, List, [], ◌∷◌, ◌++◌, if◌then◌else◌,
  Option, none, some, Bytes, drop, leb, ◌==◌, ℤ, pos, negsuc, int_eq,
}
use android_vendor_extra_fac.Crypto.{Crypto}
use android_vendor_extra_fac.Template.{FaceTemplate}
use android_vendor_extra_fac.Storage.{
  FileSystem, is_face_file, user_directory, make_user_directory, load_template,
}

-- `%d` of `sscanf`: blanks, a sign, digits. A number that no `int` holds is undefined there.
abbrev is_digit : ℕ → Bool
is_digit c = leb 48 c && leb c 57

abbrev is_space : ℕ → Bool
is_space c = c == 32 || (leb 9 c && leb c 13)

unfoldable pub scan_digits : ℕ → Bytes → ℕ
scan_digits n [] = n
scan_digits n (c ∷ rest) =
    let more = scan_digits (n * 10 + (c - 48)) rest in if is_digit c then more else n

unfoldable pub scan_unsigned : Bytes → Option ℕ
unfolding scan_digits
scan_unsigned [] = none
scan_unsigned (c ∷ rest) = if is_digit c then some (scan_digits (c - 48) rest) else none

abbrev minus_sign : ℕ → ℤ
minus_sign zero = pos 0
minus_sign (suc n) = negsuc n

abbrev map_option : (ℕ → ℤ) → Option ℕ → Option ℤ
map_option f none = none
map_option f (some n) = some (f n)

unfoldable pub scan_signed : Bytes → Option ℤ
unfolding scan_unsigned
scan_signed [] = none
scan_signed (c ∷ rest) =
    if c == 45
    then map_option minus_sign (scan_unsigned rest)
    else if c == 43
    then map_option pos (scan_unsigned rest)
    else map_option pos (scan_unsigned (c ∷ rest))

unfoldable pub scan_int : Bytes → Option ℤ
unfolding scan_signed
scan_int [] = none
scan_int (c ∷ rest) =
    let later = scan_int rest in if is_space c then later else scan_signed (c ∷ rest)

-- The face id of a name that begins with "face_"; what stands behind the number plays no part in
-- either of the two formats, and -1 stays where there is no number.
unfoldable pub file_face_id : Bytes → ℤ
unfolding scan_int
file_face_id name = elim (scan_int (drop 5 name)) [ none ↦ negsuc 0 | some id ↦ id ]

unfoldable pub is_loaded : ℤ → List ℤ → Bool
is_loaded id [] = false
is_loaded id (other ∷ ids) = int_eq id other || is_loaded id ids

-- `templates.push_back(tmpl)`, before what comes from the rounds behind it.
abbrev pub push_back : Option FaceTemplate → List FaceTemplate → List FaceTemplate
push_back none ts = ts
push_back (some t) ts = t ∷ ts

module _ (fs : FileSystem) (crypto : Crypto) where
  -- What the round for one file leaves behind: the template that it adds, if it does, and whether
  -- `ec` holds an error, at which the next round leaves the loop.
  pub record LoadState : Type 0 where
    pub template : Option FaceTemplate
    pub error_code : Bool
    pub loaded_face_ids : List ℤ
    pub files : fs.State
    pub keys : crypto.State

  -- `tmpl` is the local template before it is read into.
  unfoldable pub load_one :
      ℕ → ℤ → FaceTemplate → Bytes → List ℤ → fs.State → crypto.State → LoadState
  unfolding file_face_id is_loaded
  load_one current_version user tmpl name ids d k =
      let face = file_face_id name in
      let (loaded, t, d1, k1) = load_template fs crypto current_version user face tmpl d k in
      let (removed, d2) = fs.remove (user_directory user ++ name) d1 in
      let skipped : LoadState = record {
        template = none;
        error_code = false;
        loaded_face_ids = ids;
        files = d;
        keys = k;
      } in
      if not (is_face_file name) || int_eq face (negsuc 0) || is_loaded face ids
      then skipped
      else if loaded
      then (record {
        template = some t;
        error_code = false;
        loaded_face_ids = face ∷ ids;
        files = d1;
        keys = k1;
      })
      else (record {
        template = none;
        error_code = not removed;
        loaded_face_ids = ids;
        files = d2;
        keys = k1;
      })

  unfoldable pub load_names :
      ℕ
      → ℤ
      → FaceTemplate
      → List Bytes
      → List ℤ
      → fs.State
      → crypto.State
      → List FaceTemplate × fs.State × crypto.State
  load_names current_version user tmpl [] ids d k = ([], d, k)
  load_names current_version user tmpl (name ∷ names) ids d k =
      let s = load_one current_version user tmpl name ids d k in
      let (ts, d1, k1) =
        load_names current_version user tmpl names s.loaded_face_ids s.files s.keys in
      if s.error_code
      then (push_back s.template [], s.files, s.keys)
      else (push_back s.template ts, d1, k1)

  unfoldable pub load_all_templates_for_user :
      ℕ → ℤ → FaceTemplate → fs.State → crypto.State → List FaceTemplate × fs.State × crypto.State
  load_all_templates_for_user current_version user tmpl d k =
      let d1 = make_user_directory fs user d in
      load_names current_version user tmpl (fs.entries (user_directory user) d1) [] d1 k
