-- ===== src/Storage/Files.antt =====
-- How FaceStorageManager.cpp replaces a file, and what of the file system it relies on.
use android_vendor_extra_fac.Common.{
  ℕ, ◌≡◌, ◌≢◌, ap, ◌∙◌, true, false, ◌++◌, arith, to_string, none, some, Bytes, length,
  length-append, ℤ, inl, inr, Bool-cases,
}
use android_vendor_extra_fac.Storage.{
  FileSystem, make_directory, make_user_directory, remove_existing, replace_file, file_path,
  plaintext_file_path, user_directory, tmp, face_prefix, dat, without_encryption,
}

-- What the code relies on where it replaces a file: a new file whose write went well is read as it
-- was written; a rename that succeeds gives the new name the contents of the old one; what was removed
-- without an error cannot be read, nor what does not exist, and making directories, changing modes and
-- removing another file leave a file's contents alone.
pub record FileSystemLaws (fs : FileSystem) : Type 0 where
  pub read-create_directories :
      (path dir : Bytes) (d : fs.State)
      → fs.read path (fs.create_directories dir d) ≡ fs.read path d
  pub read-chmod :
      (path other : Bytes) (mode : ℕ) (d : fs.State)
      → fs.read path (fs.chmod other mode d) ≡ fs.read path d
  pub read-write :
      (path contents : Bytes) (d : fs.State)
      → (fs.open_new path d).0 ≡ true
      → (fs.write path contents (fs.open_new path d).1).0 ≡ true
      → fs.read path (fs.write path contents (fs.open_new path d).1).1 ≡ some contents
  pub read-rename :
      (old new : Bytes) (d : fs.State)
      → (fs.rename old new d).0 ≡ true
      → fs.read new (fs.rename old new d).1 ≡ fs.read old d
  pub read-remove :
      (path : Bytes) (d : fs.State)
      → (fs.remove path d).0 ≡ true
      → fs.read path (fs.remove path d).1 ≡ none
  pub read-remove_other :
      (path other : Bytes) (d : fs.State)
      → path ≢ other
      → fs.read path (fs.remove other d).1 ≡ fs.read path d
  pub read_absent : (path : Bytes) (d : fs.State) → fs.exists path d ≡ false → fs.read path d ≡ none

-- The states of `replace_file` behind the opening of the temporary file and behind its renaming.
abbrev pub opened_state : (fs : FileSystem) → Bytes → fs.State → fs.State
opened_state fs final_path d = (fs.open_new (final_path ++ tmp) d).1

abbrev pub renamed_state : (fs : FileSystem) → Bytes → Bytes → fs.State → fs.State
renamed_state fs final_path contents d =
    let temp_path = final_path ++ tmp in
    let written = fs.write temp_path contents (opened_state fs final_path d) in
    (fs.rename temp_path final_path (fs.chmod temp_path 384 written.1)).1

-- Of what `replace_file` does not look at: the contents are written without an error.
abbrev pub IsWritten : (fs : FileSystem) → Bytes → Bytes → fs.State → Type 0
IsWritten fs final_path contents d =
    (fs.write (final_path ++ tmp) contents (opened_state fs final_path d)).0 ≡ true

-- Nor at this: the stale file, where there is one, is removed without an error.
abbrev pub IsCleared : (fs : FileSystem) → Bytes → Bytes → Bytes → fs.State → Type 0
IsCleared fs final_path stale_path contents d =
    let d3 = renamed_state fs final_path contents d in
    fs.exists stale_path d3 ≡ true → (fs.remove stale_path d3).0 ≡ true

-- The two files of a template have different paths.
pub paths_differ : (user face : ℤ) → file_path user face ≢ plaintext_file_path user face
unfolding file_path plaintext_file_path
paths_differ user face h = omega (
  arith,
  ap length h,
  length-append (user_directory user) (face_prefix ++ (to_string face ++ dat)),
  length-append (user_directory user) (face_prefix ++ (to_string face ++ without_encryption)),
  length-append (to_string face) dat,
  length-append (to_string face) without_encryption,
)

replace_file_done :
    (fs : FileSystem) (final_path stale_path contents : Bytes) (d : fs.State)
    → (replace_file fs final_path stale_path contents d).0 ≡ true
    → let temp_path = final_path ++ tmp in
      let d2 = fs.chmod temp_path 384 (fs.write temp_path contents (fs.open_new temp_path d).1).1 in
      ((fs.open_new temp_path d).0 ≡ true) × ((fs.rename temp_path final_path d2).0 ≡ true)
unfolding replace_file
replace_file_done fs final_path stale_path contents d h = ground arith

module _ {fs : FileSystem} (laws : FileSystemLaws fs) where
  pub read-make_user_directory :
      (path : Bytes) (user : ℤ) (d : fs.State)
      → fs.read path (make_user_directory fs user d) ≡ fs.read path d
  unfolding make_user_directory make_directory
  read-make_user_directory path user d =
      grind (arith, laws.read-create_directories, laws.read-chmod)

  read-remove_existing :
      (path : Bytes) (d : fs.State)
      → (fs.exists path d ≡ true → (fs.remove path d).0 ≡ true)
      → fs.read path (remove_existing fs path d) ≡ none
  unfolding remove_existing
  read-remove_existing path d went = elim (Bool-cases (fs.exists path d)) [
    | inl e ↦ rw (e) (laws.read-remove path d (went e))
    | inr e ↦ rw (e) (laws.read_absent path d e)
  ]

  read-remove_existing_other :
      (path other : Bytes) (d : fs.State)
      → path ≢ other
      → fs.read path (remove_existing fs other d) ≡ fs.read path d
  unfolding remove_existing
  read-remove_existing_other path other d h =
      let gone = laws.read-remove_other path other d h in ground arith

  -- `h` says that the new contents got their name. The stale file is gone where it could be removed.
  pub replace_file_reads :
      (final_path stale_path contents : Bytes) (d : fs.State)
      → final_path ≢ stale_path
      → IsWritten fs final_path contents d
      → (replace_file fs final_path stale_path contents d).0 ≡ true
      → (fs.read final_path (replace_file fs final_path stale_path contents d).1 ≡ some contents)
        × (IsCleared fs final_path stale_path contents d
            → fs.read stale_path (replace_file fs final_path stale_path contents d).1 ≡ none)
  unfolding replace_file
  replace_file_reads final_path stale_path contents d apart written h =
      let temp_path = final_path ++ tmp in
      let d1 = (fs.open_new temp_path d).1 in
      let d2 = fs.chmod temp_path 384 (fs.write temp_path contents d1).1 in
      let d3 = (fs.rename temp_path final_path d2).1 in
      let (opened, renamed) = replace_file_done fs final_path stale_path contents d h in
      let kept : fs.read final_path d3 ≡ some contents =
        laws.read-rename temp_path final_path d2 renamed
        ∙ laws.read-chmod temp_path temp_path 384 (fs.write temp_path contents d1).1
        ∙ laws.read-write temp_path contents d opened written in
      rw (opened, renamed)
        (
          read-remove_existing_other final_path stale_path d3 apart ∙ kept,
          λ cleared. read-remove_existing stale_path d3 cleared,
        )
