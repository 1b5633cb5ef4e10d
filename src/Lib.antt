-- ===== src/Lib.antt =====
-- The face HAL of android_vendor_extra_facehal: an Android biometrics service that takes camera
-- frames, hands them to a face engine, keeps the enrolled templates in encrypted files and reports to
-- the framework. Its parts, each with the file that models it:
--
-- - FaceTemplateSerializer (default/FaceTemplateSerializer.cpp): Template.antt. `serialize` and
--   `deserialize` are the functions of these names; `write_fields` and `read_fields` are their bodies
--   before and behind the MAC. A byte is a number below 256, `uint32_t` is written out modulo 2 ^ 32,
--   `int32_t` goes through two's complement (Common/Words.antt).
-- - CryptoClient (default/CryptoClient.cpp): Crypto.antt has its interface, an argument of the
--   clients' models, with the laws that they rely on; Crypto/Keystore.antt is Keystore2 as an argument,
--   Crypto/Operations.antt the operations that are fed in chunks, Crypto/Mac.antt generateMac and
--   verifyMac, Crypto/Cipher.antt encrypt and decrypt, Crypto/Payload.antt the format of an encrypted
--   payload. Crypto/Keys.antt says what of Keystore2 is relied on, and Crypto/Client.antt fills the
--   interface. An empty vector is a failure. The loop that feeds an operation has a round of fuel for
--   each byte.
-- - FaceStorageManager (default/FaceStorageManager.cpp): Storage.antt, over a file system that is an
--   argument; Storage/Listing.antt is loadAllTemplatesForUser with `sscanf`, Storage/Files.antt says
--   what of the file system the replacement of a file relies on. A number in a file name has at most
--   ten digits, as an `int32_t` has, so the fuel 9 of `digits` is enough. Storage/Callbacks.antt is
--   default/include/FaceStorageCallbacks.h, where the memory of a float vector is an argument.
-- - VendorCode, AcquiredInfoMapper and VendorStateManager (default/include): VendorCode.antt.
-- - FaceEngine (default/include/FaceEngine.h): Engine.antt has its fields and inline functions and the
--   interface `EngineLibrary` of the functions that a library adds. The library that the repository
--   builds, lib/FaceEngineStub.cpp, is Engine/Stub.antt, over the storage's callbacks and a type for
--   `float`.
-- - ICameraBackend and CameraClient (default): Camera.antt, an interface, filled in
--   Camera/Lifecycle.antt by the backend.
-- - Camera2NdkBackend (default/Camera2NdkBackend.cpp), over the NDK as an argument (Camera/Ndk.antt):
--   Camera/Select.antt is the choice of the camera and its rotation, Camera/Resolution.antt the choice
--   of the size, Camera/Backend.antt the fields, teardown and the shape of a part of `start`,
--   Camera/Starting.antt and Camera/Operations.antt `start` part by part, `stop`, the warm-up and
--   getOptimalResolution. The wait for cameras has a round for each 100 ms of its time-out, the loop
--   that opens the camera two rounds of fuel. Camera/Balance.antt counts the NDK's objects.
--   Camera/Nv21.antt is packAImageToNv21, where an access out of bounds is `none`. Camera/Threads.antt
--   is a state machine of its own: the flags that the threads share, the image callback in its parts,
--   a stop with its two waits, and the callbacks for a lost device or a closed session; there a start
--   is one step with its outcome as an argument.
-- - VisionServiceImpl (default/VisionServiceImpl.cpp): Vision.antt, over shared memory and the client as
--   an argument. Engine/Frames.antt is FaceEngine::onCameraFrame, which calls the preview and then the
--   session.
-- - Start-up, Face::createSession, CancellationSignal and CameraClient (default): Service.antt.
-- - Session (default/Session.cpp): Session/State.antt has its fields with the callback queue and the
--   detached threads, Session/Calls.antt the binder calls, Session/Context.antt onContextChanged,
--   Session/Frames.antt onCameraFrame with its thread, Session/Downscale.antt the size in which a frame
--   is processed and downscaleNv21 (`process_size`, which is the argument `shrink` of `on_camera_frame`
--   where no access is out of bounds), and Session/Steps.antt puts them together as
--   events in any order. A thread takes two steps, its call of the engine and its report, so that other
--   calls come between them; within one step a call is atomic. The clock is an argument in
--   milliseconds, the random number of generateChallenge an argument that can be missing.
--
-- A session drives one engine and one camera: a call starts the camera, whose frames come back as
-- events; a frame that is let in becomes a thread, whose report posts callbacks to the queue that the
-- callback thread empties. The engine saves through FaceStorageManager, which serializes a template
-- before it encrypts it.
--
-- Not modelled: floating point (an argument of Session/Downscale.antt), sensor properties and landmarks, the
-- binder calls of default/service.cpp, logging, and all that is not C++.
pub mod Common
pub mod Crypto
pub mod Template
pub mod VendorCode
pub mod Engine
pub mod Camera
pub mod Session
pub mod Storage
pub mod Tests
pub mod Vision
pub mod Service
