-- ===== src/Vision.antt =====
-- default/VisionServiceImpl.cpp: frames for the preview, each in a piece of shared memory whose
-- descriptor the client is given.
use android_vendor_extra_fac.Common.{
  ℕ, ◌+◌, ◌-◌, ◌≡◌, ◌⊎◌, inl, inr, refl, sym, ap, ◌∙◌, subst, Bool, true, false, not, Option, none,
  some, arith, if◌then◌else◌, Bytes, length, ℤ, pos, negsuc, Bool-cases, Option-cases,
}
use android_vendor_extra_fac.Engine.{Frame}

-- Shared memory and the client, which the code calls. A descriptor that `ashmem_create_region` does
-- not give is negative; `on_frame` says whether the client's call went well.
pub record VisionWorld : Type 1 where
  pub State : Type 0
  pub Client : Type 0
  pub ashmem_create_region : ℕ → State → Option ℕ × State
  pub mmap : ℕ → ℕ → State → Bool × State
  pub memcpy : ℕ → Bytes → State → State
  pub munmap : ℕ → ℕ → State → State
  pub close : ℕ → State → State
  pub on_frame : Client → ℕ → Frame → State → Bool × State

pub record VisionService (world : VisionWorld) : Type 0 where
  pub callback : Option world.Client
  pub state : world.State

module _ {world : VisionWorld} where
  unfoldable pub set_callback : Option world.Client → VisionService world → VisionService world
  set_callback callback s = record s { callback = callback }

  -- Behind the region: the descriptor is closed by hand, or when `sfd` goes out of scope.
  unfoldable pub send_region :
      world.Client → ℕ → Frame → VisionService world → ℤ × VisionService world
  send_region cb fd frame s =
      let size = length frame.nv21 in
      let (mapped, k1) = world.mmap fd size s.state in
      let k2 = world.munmap fd size (world.memcpy fd frame.nv21 k1) in
      let (ok, k3) = world.on_frame cb fd frame k2 in
      if not mapped
      then (negsuc 0, record s { state = world.close fd k1 })
      else if not ok
      then (negsuc 0, record s { callback = none; state = world.close fd k3 })
      else (pos 0, record s { state = world.close fd k3 })

  -- The client, if there is one, and the region, if it was made; `s1` is the state behind that.
  unfoldable pub send_to :
      Option world.Client
      → Option ℕ
      → Frame
      → VisionService world
      → VisionService world
      → ℤ × VisionService world
  unfolding send_region
  send_to none fd frame s s1 = (negsuc 0, s)
  send_to (some cb) none frame s s1 = (negsuc 0, s1)
  send_to (some cb) (some fd) frame s s1 = send_region cb fd frame s1

  unfoldable pub on_camera_frame : Frame → VisionService world → ℤ × VisionService world
  unfolding send_to
  on_camera_frame frame s =
      let (fd, k) = world.ashmem_create_region (length frame.nv21) s.state in
      send_to s.callback fd frame s (record s { state = k })

-- `open_descriptors` counts descriptors: a region that is made is one more, closing one is one less.
pub record VisionLaws (world : VisionWorld) : Type 0 where
  pub open_descriptors : world.State → ℕ
  pub create_fails :
      (n : ℕ) (k : world.State)
      → (world.ashmem_create_region n k).0 ≡ none
      → open_descriptors (world.ashmem_create_region n k).1 ≡ open_descriptors k
  pub create_opens :
      (n fd : ℕ) (k : world.State)
      → (world.ashmem_create_region n k).0 ≡ some fd
      → open_descriptors (world.ashmem_create_region n k).1 ≡ open_descriptors k + 1
  pub mmap_keeps :
      (fd n : ℕ) (k : world.State) → open_descriptors (world.mmap fd n k).1 ≡ open_descriptors k
  pub memcpy_keeps :
      (fd : ℕ) (bytes : Bytes) (k : world.State)
      → open_descriptors (world.memcpy fd bytes k) ≡ open_descriptors k
  pub munmap_keeps :
      (fd n : ℕ) (k : world.State) → open_descriptors (world.munmap fd n k) ≡ open_descriptors k
  pub close_closes :
      (fd : ℕ) (k : world.State) → open_descriptors (world.close fd k) ≡ open_descriptors k - 1
  pub on_frame_keeps :
      (cb : world.Client) (fd : ℕ) (frame : Frame) (k : world.State)
      → open_descriptors (world.on_frame cb fd frame k).1 ≡ open_descriptors k

module _ {world : VisionWorld} where
  -- The client was called with the frame in a region and gave `answer`.
  abbrev pub Asked : Frame → VisionService world → Bool → Type 0
  Asked frame s answer =
      let n = length frame.nv21 in
      let (region, k) = world.ashmem_create_region n s.state in
      (cb : world.Client) × (fd : ℕ) × (s.callback ≡ some cb)
      × (region ≡ some fd)
      × ((world.mmap fd n k).0 ≡ true)
      × ((world.on_frame cb fd frame
            (world.munmap fd n (world.memcpy fd frame.nv21 (world.mmap fd n k).1))).0
          ≡ answer)

  -- There is no client, or the region cannot be made or mapped.
  abbrev pub NotAsked : Frame → VisionService world → Type 0
  NotAsked frame s =
      let n = length frame.nv21 in
      let (region, k) = world.ashmem_create_region n s.state in
      (s.callback ≡ none)
      ⊎ ((region ≡ none) ⊎ ((fd : ℕ) × (region ≡ some fd) × ((world.mmap fd n k).0 ≡ false)))

  send_region_unmapped :
      (cb : world.Client) (fd : ℕ) (frame : Frame) (s : VisionService world)
      → let (mapped, k1) = world.mmap fd (length frame.nv21) s.state in
        mapped ≡ false
        → send_region cb fd frame s ≡ (negsuc 0, record s { state = world.close fd k1 })
  unfolding send_region
  send_region_unmapped cb fd frame s e = rw (e) refl

  send_region_mapped :
      (cb : world.Client) (fd : ℕ) (frame : Frame) (s : VisionService world)
      → let size = length frame.nv21 in
        let (mapped, k1) = world.mmap fd size s.state in
        let (ok, k3) =
          world.on_frame cb fd frame (world.munmap fd size (world.memcpy fd frame.nv21 k1)) in
        mapped ≡ true
        → send_region cb fd frame s ≡ (
            if ok
            then (pos 0, record s { state = world.close fd k3 })
            else (negsuc 0, record s { callback = none; state = world.close fd k3 }))
  unfolding send_region
  send_region_mapped cb fd frame s e = simp e (ground arith)

module _ {world : VisionWorld} (laws : VisionLaws world) where
  -- No descriptor is left open. The result is 0 with the client kept where the client took the frame,
  -- -1 with the client kept where it was not called, and -1 with it dropped where its call failed.
  abbrev pub Delivered : Frame → VisionService world → ℤ × VisionService world → Type 0
  Delivered frame s r =
      (laws.open_descriptors r.1.state ≡ laws.open_descriptors s.state)
      × (((r.0 ≡ pos 0) × (r.1.callback ≡ s.callback) × Asked frame s true)
          ⊎ (((r.0 ≡ negsuc 0) × (r.1.callback ≡ s.callback) × NotAsked frame s)
              ⊎ ((r.0 ≡ negsuc 0) × (r.1.callback ≡ none) × Asked frame s false)))

  at :
      (frame : Frame) (s : VisionService world) (r r' : ℤ × VisionService world)
      → r ≡ r'
      → Delivered frame s r'
      → Delivered frame s r
  at frame s r r' e h = subst (λ x. Delivered frame s x) (sym e) h

  send_region-Delivered :
      (cb : world.Client) (fd : ℕ) (frame : Frame) (s : VisionService world)
      → let (region, k) = world.ashmem_create_region (length frame.nv21) s.state in
        s.callback ≡ some cb
        → region ≡ some fd
        → Delivered frame s (send_region cb fd frame (record s { state = k }))
  send_region-Delivered cb fd frame s there made =
      let size = length frame.nv21 in
      let k = (world.ashmem_create_region size s.state).1 in
      let s1 = record s { state = k } in
      let (mapped, k1) = world.mmap fd size k in
      let k2 = world.memcpy fd frame.nv21 k1 in
      let k3 = world.munmap fd size k2 in
      let (ok, k4) = world.on_frame cb fd frame k3 in
      let whole = send_region cb fd frame s1 in
      let opened = laws.create_opens size fd s.state made in
      let early : laws.open_descriptors (world.close fd k1) ≡ laws.open_descriptors s.state =
        omega (arith, laws.close_closes fd k1, laws.mmap_keeps fd size k, opened) in
      let late : laws.open_descriptors (world.close fd k4) ≡ laws.open_descriptors s.state = omega (
        arith,
        laws.close_closes fd k4,
        laws.on_frame_keeps cb fd frame k3,
        laws.munmap_keeps fd size k2,
        laws.memcpy_keeps fd frame.nv21 k1,
        laws.mmap_keeps fd size k,
        opened,
      ) in
      elim (Bool-cases mapped) [
        | inr e ↦
            at frame s whole (negsuc 0, record s1 { state = world.close fd k1 })
              (send_region_unmapped cb fd frame s1 e)
              (early, inr (inl (refl, refl, inr (inr (fd, made, e)))))
        | inl e ↦
            let sent = send_region_mapped cb fd frame s1 e in
            elim (Bool-cases ok) [
              | inl f ↦
                  at frame s whole (pos 0, record s1 { state = world.close fd k4 })
                    (sent ∙ rw (f) refl) (late, inl (refl, refl, (cb, fd, there, made, e, f)))
              | inr f ↦
                  at frame s whole
                    (negsuc 0, record s1 { callback = none; state = world.close fd k4 })
                    (sent ∙ rw (f) refl) (late, inr (inr (refl, refl, (cb, fd, there, made, e, f))))
            ]
      ]

  -- A frame for the preview leaves no descriptor open, whichever call fails. It gives 0 with the
  -- client kept where the client was called and took it; -1 with the client kept where there is no
  -- client or the shared memory was not made or mapped; and -1 with the client dropped where the
  -- client was called and its call failed.
  pub on_camera_frame-Delivered :
      (frame : Frame) (s : VisionService world) → Delivered frame s (on_camera_frame frame s)
  unfolding on_camera_frame send_to
  on_camera_frame-Delivered frame s =
      let (fd, k1) = world.ashmem_create_region (length frame.nv21) s.state in
      let s1 = record s { state = k1 } in
      let whole = on_camera_frame frame s in
      elim (Option-cases s.callback) [
        | inl e ↦
            at frame s whole (negsuc 0, s) (ap (λ o. send_to o fd frame s s1) e)
              (refl, inr (inl (refl, refl, inl e)))
        | inr (cb, e) ↦ elim (Option-cases fd) [
          | inl f ↦
              at frame s whole (negsuc 0, s1)
                (ap (λ o. send_to o fd frame s s1) e ∙ ap (λ o. send_to (some cb) o frame s s1) f)
                (
                  laws.create_fails (length frame.nv21) s.state f,
                  inr (inl (refl, refl, inr (inl f))),
                )
          | inr (fd', f) ↦
              at frame s whole (send_region cb fd' frame s1)
                (ap (λ o. send_to o fd frame s s1) e ∙ ap (λ o. send_to (some cb) o frame s s1) f)
                (send_region-Delivered cb fd' frame s e f)
        ]
      ]
