-- ===== src/Scan.antt =====
-- A guest scans the code on a table: src/app/scan/[code]/route.ts, with `verifyTableQr` of
-- src/lib/qr.ts. `sign` is the keyed hash that signs a code and `secret` gives a venue's key. The
-- address is what `clientIp` found, "unknown" if nothing; a request sees one time.
pub mod Signature
mod Tests
use restaurant_app.Prelude.{
  ℕ, Bool, true, false, not, ◌&&◌, ◌||◌, List, [], ◌∷◌, Option, none, some, String, if◌then◌else◌,
  find_first, str_eq,
}
use restaurant_app.Schema.{Db, Table}
use restaurant_app.Api.{Client, Subject, nobody, log_attempt}
use restaurant_app.RateLimit.{Window, rate_limit, clear_rate_limit}
use restaurant_app.Session.{mint_session}

abbrev pub fail_limit : ℕ
fail_limit = 20

abbrev pub fail_window_sec : ℕ
fail_window_sec = 600

abbrev pub ok_limit : ℕ
ok_limit = 300

abbrev pub global_fail_limit : ℕ
global_fail_limit = 200

-- The database and the counters in the server's memory.
pub record Server : Type 0 where
  pub db : Db
  pub windows : List Window

abbrev pub key_of : String → String → String
key_of prefix ip = Prim.Native.String.◌++◌ prefix ip

-- One hit, and whether it is allowed.
pub count_hit : String → ℕ → ℕ → Server → Server × Bool
count_hit key limit now s =
    let r = rate_limit key limit fail_window_sec now s.windows in
    (record s { windows = r.0 }, r.1.allowed)

abbrev pub log_outcome : Client → ℕ → String → Subject → Server → Server
log_outcome client now outcome subject s = record s {
  db = log_attempt client now outcome subject s.db;
}

abbrev pub subject_at : Table → Subject
subject_at t = record {
  venue_id = some t.venue_id;
  table_id = some t.id;
  session_id = none;
  order_id = none;
}

-- What the guest sees: the wall, or the menu with the new session's cookie.
pub data ScanReply : Type 0 where
  wall : ScanReply
  seated : (token : ℕ) → ScanReply

-- The ids and the token of the rows that a scan may create.
pub record Fresh : Type 0 where
  pub session_id : ℕ
  pub visit_id : ℕ
  pub token : ℕ

log_failure : Client → ℕ → String → Subject → Server → Server
unfolding count_hit
log_failure client now outcome subject s =
    let r = count_hit "scan:fail:all" global_fail_limit now s in
    if r.1 then log_outcome client now outcome subject r.0 else r.0

flooded : Client → ℕ → Server → Server
unfolding count_hit
flooded client now s =
    let r = count_hit (key_of "scan:faillog:" client.ip) 1 now s in
    if r.1 then log_outcome client now "rate_limited" nobody r.0 else r.0

seat : Client → ℕ → Fresh → Table → Server → Server
seat client now fresh t s = log_outcome client now "scan_ok" (subject_at t) (record s {
  db = mint_session fresh.session_id fresh.visit_id t.id t.venue_id fresh.token now s.db;
})

-- The signature was good.
pub scan_valid : Client → ℕ → Fresh → Table → Server → Server × ScanReply
unfolding count_hit seat
scan_valid client now fresh t s =
    let refunded = record s {
      windows = clear_rate_limit (key_of "scan:fail:" client.ip) s.windows;
    } in
    let r = count_hit (key_of "scan:ok:" client.ip) ok_limit now refunded in
    if r.1
    then (seat client now fresh t r.0, seated fresh.token)
    else (log_outcome client now "rate_limited" (subject_at t) r.0, wall)

module _ (sign : (secret code : String) → ℕ → String) (secret : ℕ → String) where
  pub verify_table_qr : Table → String → Bool
  verify_table_qr t sig = str_eq (sign (secret t.venue_id) t.code t.qr_version) sig

  pub scan_found : Client → ℕ → Fresh → (sig : String) → Option Table → Server → Server × ScanReply
  unfolding log_failure scan_valid verify_table_qr
  scan_found client now fresh sig none s = (log_failure client now "table_inactive" nobody s, wall)
  scan_found client now fresh sig (some t) s =
      if not t.active
      then (log_failure client now "table_inactive" (subject_at t) s, wall)
      else if not (verify_table_qr t sig)
      then (log_failure client now "invalid_qr" (subject_at t) s, wall)
      else scan_valid client now fresh t s

  pub scan : Client → ℕ → Fresh → (code sig : String) → Server → Server × ScanReply
  unfolding scan_found flooded count_hit
  scan client now fresh code sig s =
      let r = count_hit (key_of "scan:fail:" client.ip) fail_limit now s in
      if r.1
      then scan_found client now fresh sig (find_first (λ t. str_eq t.code code) r.0.db.tables) r.0
      else (flooded client now r.0, wall)
