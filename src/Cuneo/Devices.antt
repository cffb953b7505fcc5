-- ===== src/Cuneo/Devices.antt =====
-- The devices of demo/cuneo_overlay.js: the cache, and what the verify button says.
use mobydb_render_engine.Base.{
  ℕ, ◌≡◌, refl, Bool, false, Option, none, some, List, [], Result, ok, throw, Text, codes, ◌===◌,
  ===_refl,
}
use mobydb_render_engine.LabVerify.Json.{Json}
use mobydb_render_engine.Cuneo.{
  Cache, lookup, load_from, load_devices, Device, chain_validated, signature_of, run_ed25519_verify,
  verify_device,
}

load_from-again :
    (k : Text) (o : Option (List Json)) (devices : List Json) (reply : Result (List Json))
    (cache : Cache)
    → lookup k cache ≡ o
    → let first = load_from k o (ok devices) cache in load_devices k reply first.1 ≡ first
unfolding load_devices
load_from-again k none devices reply cache e = rw (===_refl k) refl
load_from-again k (some ds) devices reply cache e = rw e refl

again :
    (k : Text) (devices : List Json) (reply : Result (List Json)) (cache : Cache)
    → load_devices k reply (load_devices k (ok devices) cache).1 ≡ load_devices k (ok devices) cache
unfolding load_devices
again k devices reply cache = load_from-again k (lookup k cache) devices reply cache refl

failed :
    (k message : Text) (cache : Cache)
    → lookup k cache ≡ none
    → load_devices k (throw message) cache ≡ ([], cache)
unfolding load_devices
failed k message cache e = rw e refl

first_load :
    (k : Text) (devices : List Json) (cache : Cache)
    → lookup k cache ≡ none
    → (load_devices k (ok devices) cache).0 ≡ devices
unfolding load_devices
first_load k devices cache e = rw e refl

-- For a station that is not cached: a load that succeeds gives the reply's devices, and every later
-- load gives the same devices and leaves the cache as it is, whatever the server would reply; a load
-- that fails gives no devices and caches nothing.
pub load_devices_lem :
    (k message : Text) (devices : List Json) (reply : Result (List Json)) (cache : Cache)
    → lookup k cache ≡ none
    → ((load_devices k (ok devices) cache).0 ≡ devices)
      × (load_devices k reply (load_devices k (ok devices) cache).1
          ≡ load_devices k (ok devices) cache)
      × (load_devices k (throw message) cache ≡ ([], cache))
load_devices_lem k message devices reply cache e =
    (first_load k devices cache e, again k devices reply cache, failed k message cache e)

module _ (verify : List ℕ → List ℕ → List ℕ → Result Bool) where
  -- A device whose provisioning mode is not A is said to have a validated chain as soon as its record
  -- has a signature text, whatever the text and whatever the Ed25519 library would answer.
  pub verify_device_other_mode :
      (d : Device) {s : Text}
      → (d.provisioning_mode === codes "A") ≡ false
      → signature_of verify d ≡ ok s
      → verify_device verify d ≡ chain_validated
  unfolding verify_device run_ed25519_verify
  verify_device_other_mode d h e = rw (e, h, h) refl
