-- ===== src/Storage/WithKeystore.antt =====
-- FaceStorageManager.cpp on top of CryptoClient.cpp, down to the calls of Keystore2.
use android_vendor_extra_fac.Common.{ℕ, ◌≡◌, true}
use android_vendor_extra_fac.Crypto.Keystore.{SecurityLevel}
use android_vendor_extra_fac.Crypto.Keys.{KeystoreLaws, Later}
use android_vendor_extra_fac.Crypto.Mac.{generate_mac}
use android_vendor_extra_fac.Crypto.Client.{client, client_laws}
use android_vendor_extra_fac.Template.{FaceTemplate, write_fields}
use android_vendor_extra_fac.Template.RoundTrip.{IsCurrent, stored}
use android_vendor_extra_fac.Storage.{FileSystem, save_template, load_template}
use android_vendor_extra_fac.Storage.Files.{FileSystemLaws}
use android_vendor_extra_fac.Storage.SaveLoad.{IsUndisturbed, load_template-save_template}

-- A template of the version in use, with less than 4 GiB of bytes and ids of 32 bits, that was saved
-- through a Keystore2 is loaded back with its MAC: where the write went well, where an encrypted file
-- from before could be removed if the plaintext one was written, and where the keystore kept the keys
-- and answers. Nothing is assumed of the client in between.
pub load_template-save_template_keystore :
    (fs : FileSystem) (files : FileSystemLaws fs) (level : SecurityLevel)
    → (keystore : KeystoreLaws level) (current_version : ℕ) (t out : FaceTemplate)
    → (d : fs.State) (k l : level.State) → IsCurrent current_version t
    → IsUndisturbed fs (client level) t d k
    → (save_template fs (client level) t d k).0 ≡ true
    → Later keystore (save_template fs (client level) t d k).2 l
    → let (loaded, t', d1, l1) =
        load_template fs
          (client level)
          current_version
          t.user_id
          t.face_id
          out
          (save_template fs (client level) t d k).1
          l in
      (loaded ≡ true) × (t' ≡ stored t (generate_mac level (write_fields t) k).0)
unfolding client_laws
load_template-save_template_keystore fs files level keystore current_version t out d k l v well
      saved later =
    load_template-save_template fs files (client level) (client_laws keystore) current_version t out
      d k l v well saved later
