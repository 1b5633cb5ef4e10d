-- ===== src/Storage.antt =====
-- default/FaceStorageManager.cpp: one file for each enrolled template, under a directory for each
-- user. Names are byte sequences.
pub mod Listing
pub mod Callbacks
pub mod Owned
pub mod Files
pub mod SaveLoad
pub mod WithKeystore
use android_vendor_extra_fac.Common.{
  to_string, starts_with, contains, ℕ, zero, suc, ◌+◌, ◌*◌, ◌/◌, ◌%◌, ◌≡◌, ◌≢◌, Bool, true, false,
  not, ◌&&◌, ◌||◌, List, [], ◌∷◌, ◌++◌, if◌then◌else◌, Option, none, some, Bytes, length, take,
  is_empty, bytes_eq, ltb, ℤ, pos, negsuc, int_eq,
}
use android_vendor_extra_fac.Crypto.{Crypto}
use android_vendor_extra_fac.Template.{FaceTemplate, serialize, deserialize}

-- The file system as the code uses it. Errors that the code does not look at are part of the state.
-- `read` opens a file and reads all of it; `write` is `ofstream::write` with `close` and says whether
-- they went without an error, as `remove` does; `entries` lists the names in a directory.
pub record FileSystem : Type 1 where
  pub State : Type 0
  pub exists : Bytes → State → Bool
  pub create_directories : Bytes → State → State
  pub chmod : Bytes → ℕ → State → State
  pub read : Bytes → State → Option Bytes
  pub open_new : Bytes → State → Bool × State
  pub write : Bytes → Bytes → State → Bool × State
  pub rename : Bytes → Bytes → State → Bool × State
  pub unlink : Bytes → State → State
  pub remove : Bytes → State → Bool × State
  pub remove_all : Bytes → State → State
  pub entries : Bytes → State → List Bytes

-- "/data/vendor/biometrics/face/"
abbrev pub base_dir : Bytes
base_dir =
    47 ∷ 100 ∷ 97 ∷ 116 ∷ 97 ∷ 47 ∷ 118 ∷ 101 ∷ 110 ∷ 100 ∷ 111 ∷ 114 ∷ 47 ∷ 98 ∷ 105 ∷ 111 ∷ 109
    ∷ 101 ∷ 116 ∷ 114 ∷ 105 ∷ 99 ∷ 115 ∷ 47 ∷ 102 ∷ 97 ∷ 99 ∷ 101 ∷ 47 ∷ []

-- "user_"
abbrev pub user_prefix : Bytes
user_prefix = 117 ∷ 115 ∷ 101 ∷ 114 ∷ 95 ∷ []

-- "/"
abbrev pub slash : Bytes
slash = 47 ∷ []

-- "face_"
abbrev pub face_prefix : Bytes
face_prefix = 102 ∷ 97 ∷ 99 ∷ 101 ∷ 95 ∷ []

-- ".dat"
abbrev pub dat : Bytes
dat = 46 ∷ 100 ∷ 97 ∷ 116 ∷ []

-- "_without_encryption.dat"
abbrev pub without_encryption : Bytes
without_encryption =
    95 ∷ 119 ∷ 105 ∷ 116 ∷ 104 ∷ 111 ∷ 117 ∷ 116 ∷ 95 ∷ 101 ∷ 110 ∷ 99 ∷ 114 ∷ 121 ∷ 112 ∷ 116 ∷ 105
    ∷ 111 ∷ 110 ∷ 46 ∷ 100 ∷ 97 ∷ 116 ∷ []

-- ".tmp"
abbrev pub tmp : Bytes
tmp = 46 ∷ 116 ∷ 109 ∷ 112 ∷ []

-- A template's file by its name.
unfoldable pub is_face_file : Bytes → Bool
unfolding starts_with contains
is_face_file name = starts_with face_prefix name && contains dat name

unfoldable pub any_face_file : List Bytes → Bool
unfolding is_face_file
any_face_file [] = false
any_face_file (name ∷ names) = is_face_file name || any_face_file names

-- The paths that `getUserDirectory`, `getFilePath` and `getPlaintextFilePath` return.
unfoldable pub user_directory : ℤ → Bytes
unfolding to_string
user_directory user = base_dir ++ (user_prefix ++ (to_string user ++ slash))

unfoldable pub file_path : ℤ → ℤ → Bytes
unfolding user_directory to_string
file_path user face = user_directory user ++ (face_prefix ++ (to_string face ++ dat))

unfoldable pub plaintext_file_path : ℤ → ℤ → Bytes
unfolding user_directory to_string
plaintext_file_path user face =
    user_directory user ++ (face_prefix ++ (to_string face ++ without_encryption))

module _ (fs : FileSystem) where
  -- The directory that a path function makes on its way.
  unfoldable pub make_directory : Bytes → fs.State → fs.State
  make_directory dir d =
      if fs.exists dir d then d else fs.chmod dir 504 (fs.create_directories dir d)

  unfoldable pub make_user_directory : ℤ → fs.State → fs.State
  unfolding user_directory make_directory
  make_user_directory user d = make_directory (user_directory user) d

  unfoldable pub initialize : fs.State → Bool × fs.State
  unfolding make_directory
  initialize d = (true, make_directory base_dir d)

  unfoldable pub read_file : Bytes → fs.State → Bytes
  read_file path d = elim (fs.read path d) [ none ↦ [] | some bytes ↦ bytes ]

  unfoldable pub remove_existing : Bytes → fs.State → fs.State
  remove_existing path d = if fs.exists path d then (fs.remove path d).1 else d

  -- `saveTemplate` from the temporary file on.
  unfoldable pub replace_file : Bytes → Bytes → Bytes → fs.State → Bool × fs.State
  unfolding remove_existing
  replace_file final_path stale_path data_to_write d =
      let temp_path = final_path ++ tmp in
      let (is_open, d1) = fs.open_new temp_path d in
      let d2 = fs.chmod temp_path 384 (fs.write temp_path data_to_write d1).1 in
      let (renamed, d3) = fs.rename temp_path final_path d2 in
      if not is_open
      then (false, d1)
      else if not renamed
      then (false, fs.unlink temp_path d3)
      else (true, remove_existing stale_path d3)

  unfoldable pub remove_user : ℤ → fs.State → Bool × fs.State
  remove_user user d =
      let d1 = make_user_directory user d in
      let dir = user_directory user in (true, if fs.exists dir d1 then fs.remove_all dir d1 else d1)

  unfoldable pub delete_template : ℤ → ℤ → fs.State → Bool × fs.State
  delete_template user face d =
      let d1 = make_user_directory user (make_user_directory user d) in
      let d2 = remove_existing (file_path user face) d1 in
      let d3 = remove_existing (plaintext_file_path user face) d2 in
      let d4 = make_user_directory user d3 in
      if any_face_file (fs.entries (user_directory user) d4)
      then (true, d4)
      else (true, (remove_user user d4).1)

  module _ (crypto : Crypto) where
    unfoldable pub save_template :
        FaceTemplate → fs.State → crypto.State → Bool × fs.State × crypto.State
    save_template t d k =
        let (serialized, k1) = serialize crypto t k in
        let d1 = make_user_directory t.user_id (make_user_directory t.user_id d) in
        let path = file_path t.user_id t.face_id in
        let plaintext_path = plaintext_file_path t.user_id t.face_id in
        let (encrypted, k2) = crypto.encrypt t.user_id serialized k1 in
        let (saved, d2) =
          if is_empty encrypted
          then replace_file plaintext_path path serialized (make_user_directory t.user_id d1)
          else replace_file path plaintext_path encrypted d1 in
        if is_empty serialized then (false, d, k1) else (saved, d2, k2)

    unfoldable pub deserialize_and_validate :
        ℕ → ℤ → ℤ → Bytes → FaceTemplate → crypto.State → Bool × FaceTemplate × crypto.State
    deserialize_and_validate current_version user face bytes out k =
        let (valid, t, k1) = deserialize crypto current_version bytes out k in
        (valid && int_eq t.user_id user && int_eq t.face_id face, t, k1)

    -- The plaintext file, behind a failure of the encrypted one.
    unfoldable pub load_plaintext :
        ℕ
        → ℤ
        → ℤ
        → FaceTemplate
        → fs.State
        → crypto.State
        → Bool × FaceTemplate × fs.State × crypto.State
    load_plaintext current_version user face out d k =
        let d1 = make_user_directory user d in
        let bytes = read_file (plaintext_file_path user face) d1 in
        let (valid, t, k1) = deserialize_and_validate current_version user face bytes out k in
        if is_empty bytes then (false, out, d1, k) else (valid, t, d1, k1)

    unfoldable pub load_template :
        ℕ
        → ℤ
        → ℤ
        → FaceTemplate
        → fs.State
        → crypto.State
        → Bool × FaceTemplate × fs.State × crypto.State
    load_template current_version user face out d k =
        let d1 = make_user_directory user d in
        let encrypted = read_file (file_path user face) d1 in
        let (decrypted, k1) = crypto.decrypt user encrypted k in
        let (valid, t, k2) = deserialize_and_validate current_version user face decrypted out k1 in
        if is_empty encrypted
        then load_plaintext current_version user face out d1 k
        else if is_empty decrypted
        then load_plaintext current_version user face out d1 k1
        else if valid
        then (true, t, d1, k2)
        else load_plaintext current_version user face t d1 k2
