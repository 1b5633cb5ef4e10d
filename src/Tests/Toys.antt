-- ===== src/Tests/Toys.antt =====
-- Small implementations of the parameters: a keystore that encrypts by doing nothing, a file system
-- that is a list of files, an engine over a storage that always saves, a camera that can fail.
use android_vendor_extra_fac.Common.{
  ℕ, length, drop, ◌≡◌, ◌≢◌, refl, Bool, true, false, ◌&&◌, List, [], ◌∷◌, Option, none, some,
  if◌then◌else◌, Bytes, replicate, bytes_eq, bytes_eq_refl, bytes_eq→eq, All, IsByte, ltb, ltb→lt,
  pos, arith, map, ◌∙◌, not, int_eq, sym, Bool-cases, inl, inr,
}
use android_vendor_extra_fac.Crypto.{Crypto, CryptoLaws}
use android_vendor_extra_fac.Engine.{Frame, FaceEngine}
use android_vendor_extra_fac.Engine.Stub.{FaceEngineCallbacks, Impl}
use android_vendor_extra_fac.Camera.{CameraBackend}
use android_vendor_extra_fac.Template.{FaceTemplate}
use android_vendor_extra_fac.Storage.{FileSystem}
use android_vendor_extra_fac.Storage.Files.{FileSystemLaws}

abbrev pub toy_crypto : Crypto
toy_crypto = record {
  State = Unit {0};
  encrypt = λ user data' k. (data', k);
  decrypt = λ user data' k. (data', k);
  generate_mac = λ data' k. (replicate 32 7, k);
  verify_mac = λ data' mac k. (bytes_eq mac (replicate 32 7), k);
}

pub toy_laws : CryptoLaws toy_crypto
toy_laws = record {
  Later = λ k l. Unit {0};
  encrypt-Later = λ user data' k l p. tt;
  decrypt-Later = λ user data' k l p. tt;
  mac_size = λ data' k h. refl;
  verify_mac-generate_mac = λ data' k l h p. bytes_eq_refl (replicate 32 7);
  decrypt-encrypt = λ user data' k l h p. refl;
}

pub toy_later : (k l : Unit {0}) → toy_laws.Later k l
unfolding toy_laws
toy_later k l = tt

abbrev pub fit_bytes : Bytes → Bool
fit_bytes [] = true
fit_bytes (b ∷ bs) = ltb b 256 && fit_bytes bs

pub fit_bytes-All : (bs : Bytes) → fit_bytes bs ≡ true → All IsByte bs
fit_bytes-All [] h = tt
fit_bytes-All (b ∷ bs) h = (ltb→lt b 256 (ground arith), fit_bytes-All bs (ground arith))

-- A template of three bytes, and one that has nothing to do with it.
abbrev pub card : FaceTemplate
card = record {
  version = 1;
  face_id = pos 3;
  user_id = pos 10;
  template_data = 200 ∷ 5 ∷ 9 ∷ [];
  checksum = 0;
  mac = [];
}

abbrev pub blank : FaceTemplate
blank = record {
  version = 0;
  face_id = pos 0;
  user_id = pos 0;
  template_data = [];
  checksum = 0;
  mac = [];
}

-- Files in a list; a directory is not kept.
abbrev pub Files : Type 0
Files = List (Bytes × Bytes)

abbrev pub find : Bytes → Files → Option Bytes
find path [] = none
find path ((name, contents) ∷ files) =
    let later = find path files in if bytes_eq name path then some contents else later

abbrev pub discard : Bytes → Files → Files
discard path [] = []
discard path ((name, contents) ∷ files) =
    let later = discard path files in if bytes_eq name path then later else (name, contents) ∷ later

find-discard : (path : Bytes) (files : Files) → find path (discard path files) ≡ none
find-discard path [] = refl
find-discard path ((name, contents) ∷ files) =
    let later = find-discard path files in
    elim (Bool-cases (bytes_eq name path)) [ inl e ↦ rw (e) later | inr e ↦ rw (e, e) later ]

find-discard_other :
    (path other : Bytes) (files : Files)
    → path ≢ other
    → find path (discard other files) ≡ find path files
find-discard_other path other [] h = refl
find-discard_other path other ((name, contents) ∷ files) h =
    let later = find-discard_other path other files h in
    elim (Bool-cases (bytes_eq name other)) [
      | inl e ↦ elim (Bool-cases (bytes_eq name path)) [
        | inl f ↦ absurd (h (sym (bytes_eq→eq name path f) ∙ bytes_eq→eq name other e))
        | inr f ↦ rw (e, f) later
      ]
      | inr e ↦ rw (e) (ground arith)
    ]

abbrev pub is_some : Option Bytes → Bool
is_some none = false
is_some (some bytes) = true

absent : (o : Option Bytes) → is_some o ≡ false → o ≡ none
absent none h = refl
absent (some bytes) h = cc

abbrev pub or_empty : Option Bytes → Bytes
or_empty none = []
or_empty (some bytes) = bytes

found_new :
    (path contents : Bytes) (files : Files) → find path ((path, contents) ∷ files) ≡ some contents
found_new path contents files = rw (bytes_eq_refl path) refl

abbrev pub toy_files : FileSystem
toy_files = record {
  State = Files;
  exists = λ path files. is_some (find path files);
  create_directories = λ path files. files;
  chmod = λ path mode files. files;
  read = find;
  open_new = λ path files. (true, (path, []) ∷ discard path files);
  write = λ path contents files. (true, (path, contents) ∷ discard path files);
  rename = λ old new files. (is_some (find old files), (new, or_empty (find old files)) ∷ files);
  unlink = discard;
  remove = λ path files. (true, discard path files);
  remove_all = λ path files. [];
  entries = λ path files. map (λ file. drop (length path) file.0) files;
}

some-or_empty : (o : Option Bytes) → is_some o ≡ true → some (or_empty o) ≡ o
some-or_empty none h = cc
some-or_empty (some bytes) h = refl

pub toy_files_laws : FileSystemLaws toy_files
toy_files_laws = record {
  read-create_directories = λ path dir d. refl;
  read-chmod = λ path other mode d. refl;
  read-write = λ path contents d h written.
      found_new path contents (discard path ((path, []) ∷ discard path d));
  read-rename =
      λ old new d h. found_new new (or_empty (find old d)) d ∙ some-or_empty (find old d) h;
  read-remove = λ path d went. find-discard path d;
  read-remove_other = λ path other d h. find-discard_other path other d h;
  read_absent = λ path d h. absent (find path d) h;
}

-- A storage without contents that saves each template but those of user 99.
abbrev pub toy_callbacks : FaceEngineCallbacks
toy_callbacks = record {
  State = Unit {0};
  Float = ℕ;
  zero_float = 0;
  save_template = λ user face embedding k. (not (int_eq user (pos 99)), k);
  delete_template = λ user face k. (true, k);
  load_templates = λ user k. ((pos 4, 1 ∷ []) ∷ [], k);
}

abbrev pub toy_engine : FaceEngine (Impl toy_callbacks)
toy_engine = record {
  impl = record { has_callbacks = true; storage = tt; enrolled_embeddings = (pos 4, 1 ∷ []) ∷ [] };
  enroll_frame_count = 0;
  require_attention = false;
  require_diverse_poses = false;
  capture_requested = false;
  rotation = 0;
  cancelled = false;
  has_session_callback = false;
}

-- A camera whose state says whether it starts.
abbrev pub toy_camera : CameraBackend
toy_camera = record {
  State = Bool;
  start = λ c. (c, c);
  stop = λ c. c;
  last_start_failure_vendor_code = λ c. pos 0;
}

abbrev pub toy_frame : Frame
toy_frame = record { nv21 = 1 ∷ []; width = 1; height = 1; angle = 0 }
