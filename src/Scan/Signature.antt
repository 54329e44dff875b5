-- ===== src/Scan/Signature.antt =====
-- Who gets a session from a scan (src/app/scan/[code]/route.ts), and what a new version of a table's
-- code (src/app/api/admin/tables/[id]/route.ts) does to those who hold the old one.
use restaurant_app.Prelude.{
  ℕ, suc, ◌≡◌, ◌≢◌, refl, inl, inr, ◌⊎◌, Bool, true, false, ◌&&◌, Option, none, some, String, arith,
  Bool-cases, str_eq, str_eq_iff, ◌==◌, find_first, count, subst,
}
use restaurant_app.Schema.{Db, Table}
use restaurant_app.Api.{Client, StaffClaims}
use restaurant_app.Session.{mint_session}
use restaurant_app.Tables.{TableChange, patch_table, next_version, table_is, live_at}
use restaurant_app.Tables.Regenerate.{patch_table-regenerate, regenerate-table, regenerate-sessions}
use restaurant_app.Scan.{
  Server, ScanReply, wall, seated, Fresh, scan, scan_found, scan_valid, seat, flooded, log_failure,
  verify_table_qr, count_hit, key_of, fail_limit,
}

-- The table that the code in the link names.
abbrev pub by_code : String → Server → Option Table
by_code code s = find_first (λ t. str_eq t.code code) s.db.tables

abbrev pub NoEntry : Db → Server × ScanReply → Type 0
NoEntry db r =
    (r.1 ≡ wall)
    × (r.0.db.sessions ≡ db.sessions)
    × (r.0.db.visits ≡ db.visits)
    × (r.0.db.tables ≡ db.tables)

module _ (client : Client) (now : ℕ) where
  log_failure-NoEntry :
      (outcome : String) (subject : _) (s : Server)
      → NoEntry s.db (log_failure client now outcome subject s, wall)
  unfolding log_failure count_hit
  log_failure-NoEntry outcome subject s = ground arith

  flooded-NoEntry : (s : Server) → NoEntry s.db (flooded client now s, wall)
  unfolding flooded count_hit
  flooded-NoEntry s = ground arith

abbrev pub Seating : ℕ → Fresh → Table → Db → Server × ScanReply → Type 0
Seating now fresh t db r =
    (r.1 ≡ seated fresh.token)
    × (r.0.db.sessions
        ≡ (mint_session fresh.session_id fresh.visit_id t.id t.venue_id fresh.token now
            db).sessions)

scan_valid-Seating :
    (client : Client) (now : ℕ) (fresh : Fresh) (t : Table) (s : Server)
    → Seating now fresh t s.db (scan_valid client now fresh t s)
      ⊎ NoEntry s.db (scan_valid client now fresh t s)
unfolding scan_valid seat count_hit
scan_valid-Seating client now fresh t s = ground arith

module _ (sign : (secret code : String) → ℕ → String) (secret : ℕ → String) where
  -- Some active table's code, signed for its present version.
  abbrev pub admits : String → Option Table → Bool
  admits sig none = false
  admits sig (some t) = t.active && verify_table_qr sign secret t sig

  abbrev pub Outcome : ℕ → Fresh → (sig : String) → Option Table → Db → Server × ScanReply → Type 0
  Outcome now fresh sig none db r = NoEntry db r
  Outcome now fresh sig (some t) db r =
      (admits sig (some t) ≡ true) × Seating now fresh t db r ⊎ NoEntry db r

  Outcome-NoEntry :
      (now : ℕ) (fresh : Fresh) (sig : String) (t : Option Table) (db : Db) (r : Server × ScanReply)
      → NoEntry db r
      → Outcome now fresh sig t db r
  Outcome-NoEntry now fresh sig none db r n = n
  Outcome-NoEntry now fresh sig (some t) db r n = inr n

  scan_found-Outcome :
      (client : Client) (now : ℕ) (fresh : Fresh) (sig : String) (t : Option Table) (s : Server)
      → Outcome now fresh sig t s.db (scan_found sign secret client now fresh sig t s)
  unfolding scan_found
  scan_found-Outcome client now fresh sig none s = log_failure-NoEntry client now _ _ s
  scan_found-Outcome client now fresh sig (some t) s = elim (Bool-cases t.active) [
    | inr a ↦ rw a (inr (log_failure-NoEntry client now _ _ s))
    | inl a ↦ elim (Bool-cases (verify_table_qr sign secret t sig)) [
      | inr v ↦ rw (a, v) (inr (log_failure-NoEntry client now _ _ s))
      | inl v ↦ elim (scan_valid-Seating client now fresh t s) [
        | inl e ↦ rw (a, v) (inl (refl, e))
        | inr n ↦ rw (a, v) (inr n)
      ]
    ]
  ]

  -- A scan either gives the guest a session, for a link that names an active table and carries the
  -- signature of its present version, or sends them to the wall; the wall changes neither the
  -- sessions nor the visits nor the tables. A code that no table has always ends at the wall.
  pub scan-Outcome :
      (client : Client) (now : ℕ) (fresh : Fresh) (code sig : String) (s : Server)
      → Outcome now fresh sig (by_code code s) s.db (scan sign secret client now fresh code sig s)
  unfolding scan count_hit
  scan-Outcome client now fresh code sig s =
      let r = count_hit (key_of "scan:fail:" client.ip) fail_limit now s in
      elim (Bool-cases r.1) [
        | inl e ↦ rw e (scan_found-Outcome client now fresh sig (by_code code s) r.0)
        | inr e ↦
            rw e (
              Outcome-NoEntry now fresh sig (by_code code s) s.db _
                (flooded-NoEntry client now r.0))
      ]

  refuses :
      (sig : String) (t : Table)
      → sign (secret t.venue_id) t.code t.qr_version ≢ sig
      → verify_table_qr sign secret t sig ≡ false
  unfolding verify_table_qr
  refuses sig t ne = elim (Bool-cases (verify_table_qr sign secret t sig)) [
    | inl e ↦ absurd (ne ((str_eq_iff _ _).0 e))
    | inr e ↦ e
  ]

  scan_refused :
      (client : Client) (now : ℕ) (fresh : Fresh) (code sig : String) (s : Server) (t : Table)
      → by_code code s ≡ some t
      → verify_table_qr sign secret t sig ≡ false
      → NoEntry s.db (scan sign secret client now fresh code sig s)
  scan_refused client now fresh code sig s t f v =
      let r = scan sign secret client now fresh code sig s in
      let o : Outcome now fresh sig (some t) s.db r =
        subst (λ u. Outcome now fresh sig u s.db r) f (scan-Outcome client now fresh code sig s) in
      elim o [ inl (a, _) ↦ absurd (ground (arith, a, v)) | inr n ↦ n ]

  -- When the staff regenerate a table's code, a later scan of the link with the table's previous
  -- signature ends at the wall, and no session at the table is left alive. The signatures of the
  -- two versions differ, and no two tables have the same code.
  pub scan-regenerated :
      (staff : StaffClaims) (client : Client) (now later : ℕ) (fresh : Fresh) (c : TableChange)
      (s : Server) (t : Table)
      → c.regenerate_qr ≡ true
      → find_first (λ u. table_is t.id u && (u.venue_id == staff.venue_id)) s.db.tables ≡ some t
      → by_code t.code s ≡ some t
      → sign (secret t.venue_id) t.code (suc t.qr_version)
        ≢ sign (secret t.venue_id) t.code t.qr_version
      → (let changed = record s { db = (patch_table (some staff) now t.id c s.db).0 } in
          let r =
            scan sign secret client later fresh t.code
              (sign (secret t.venue_id) t.code t.qr_version)
              changed in
          (r.1 ≡ wall) × (count (live_at t.id) r.0.db.sessions ≡ 0))
  scan-regenerated staff client now later fresh c s t r own f ne =
      let db = (patch_table (some staff) now t.id c s.db).0 in
      let e = patch_table-regenerate staff now t.id c s.db r own in
      let old = sign (secret t.venue_id) t.code t.qr_version in
      let changed : Server = record s { db = db } in
      let found : by_code t.code changed ≡ some (next_version t) =
        rw e (regenerate-table now t.id s.db t.code f refl) in
      let n =
        scan_refused client later fresh t.code old changed (next_version t) found
          (refuses _ (next_version t) ne) in
      (n.0, rw (n.1, e) (regenerate-sessions now t.id s.db))
