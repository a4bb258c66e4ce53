-- ===== src/Database/Answers.antt =====
-- How the transactions end, and what the operations answer.
use ai_solo_coder_task_a.Common.{CrackInfo, LaserMicroscopeData, Point3D}
use ai_solo_coder_task_a.Database.{Database, Postgres, acquire, release, transaction_command}
use ai_solo_coder_task_a.Database.Batches.{
  batch, batch_body, batch_insert_laser_data, closed, detections_body, finish, give_up, insert_all,
  insert_all_points, insert_detection, insert_detections, send_all,
}
use ai_solo_coder_task_a.Database.Statements.{laser_values}
use ai_solo_coder_task_a.Prelude.{
  Bool, Bool-cases, List, Option, String, [], ap, false, if◌then◌else◌, inl, inr, map, none, refl,
  some, subst, sym, true, ℕ, ◌∷◌, ◌≡◌, ◌⊎◌,
}

module _ (pg : Postgres) where
  open pg use {Server, exec, Json}

  -- The command that a transaction ends with, and its answer.
  abbrev pub EndsWith : String → Bool → ℕ → Server → Type 0
  EndsWith command good conn server =
      (before : Server) × (transaction_command pg command conn before ≡ (good, server))

  -- The answer `true` comes after a COMMIT that succeeded, `false` after a ROLLBACK, or after a BEGIN
  -- that failed.
  abbrev pub IsClosed : ℕ → Server → Bool × Server → Type 0
  IsClosed conn server done =
      (done.0 ≡ true) × EndsWith "COMMIT" true conn done.1
      ⊎ (done.0 ≡ false)
        × (((good : Bool) × EndsWith "ROLLBACK" good conn done.1)
            ⊎ (transaction_command pg "BEGIN" conn server ≡ (false, done.1)))

  -- The part of a batch goes on, or rolls back, gives back the connection and answers `false`.
  abbrev pub GivesUp : ℕ → Database pg → Server ⊎ (Bool × Database pg) → Type 0
  GivesUp conn db (inl server) = Unit
  GivesUp conn db (inr done) = (before : Server) × (done ≡ give_up pg conn db before)

  if-GivesUp :
      (conn : ℕ) (db : Database pg) (good : Bool) (rest : Server ⊎ (Bool × Database pg))
      (server : Server)
      → GivesUp conn db rest
      → GivesUp conn db (if good then rest else inr (give_up pg conn db server))
  if-GivesUp conn db true rest server h = h
  if-GivesUp conn db false rest server h = (server, refl)

  insert_all_points-GivesUp :
      (crack_id : ℕ) (points : List Point3D) (conn : ℕ) (db : Database pg) (server : Server)
      → GivesUp conn db (insert_all_points pg crack_id points conn db server)
  unfolding insert_all_points
  insert_all_points-GivesUp crack_id [] conn db server = tt
  insert_all_points-GivesUp crack_id (point ∷ points) conn db server =
      if-GivesUp conn db _ _ _ (insert_all_points-GivesUp crack_id points conn db _)

  insert_detection-GivesUp :
      (porcelain_id : ℕ) (crack : CrackInfo) (points : List Point3D) (conn : ℕ) (db : Database pg)
      (server : Server)
      → GivesUp conn db (insert_detection pg porcelain_id crack points conn db server)
  unfolding insert_detection
  insert_detection-GivesUp porcelain_id crack points conn db server = go _ _
    where
      go :
          (id : Option ℕ) (server' : Server)
          → GivesUp conn db (elim id [
            | none ↦ inr (give_up pg conn db server')
            | some crack_id ↦ insert_all_points pg crack_id points conn db server'
          ])
      go none server' = (server', refl)
      go (some crack_id) server' = insert_all_points-GivesUp crack_id points conn db server'

  insert_detections-GivesUp :
      (porcelain_id : ℕ) (cracks : List CrackInfo) (crack_points : List (List Point3D)) (conn : ℕ)
      (db : Database pg) (server : Server)
      → GivesUp conn db (insert_detections pg porcelain_id cracks crack_points conn db server)
  unfolding insert_detections
  insert_detections-GivesUp porcelain_id [] crack_points conn db server = tt
  insert_detections-GivesUp porcelain_id (crack ∷ cracks) [] conn db server = tt
  insert_detections-GivesUp porcelain_id (crack ∷ cracks) (points ∷ crack_points) conn db server =
      go (insert_detection pg porcelain_id crack points conn db server)
        (insert_detection-GivesUp porcelain_id crack points conn db server)
        (insert_detections-GivesUp porcelain_id cracks crack_points conn db)
    where
      go :
          (inserted : Server ⊎ (Bool × Database pg))
          → GivesUp conn db inserted
          → ((server' : Server)
              → GivesUp conn db
                  (insert_detections pg porcelain_id cracks crack_points conn db server'))
          → GivesUp conn db (elim inserted [
            | inl server' ↦ insert_detections pg porcelain_id cracks crack_points conn db server'
            | inr done ↦ inr done
          ])
      go (inl server') h later = later server'
      go (inr done) h later = h

  pub insert_all-GivesUp :
      (d : LaserMicroscopeData Json) (cracks : List CrackInfo) (crack_points : List (List Point3D))
      (porcelain_id conn : ℕ) (db : Database pg) (server : Server)
      → GivesUp conn db (insert_all pg d cracks crack_points porcelain_id conn db server)
  unfolding insert_all
  insert_all-GivesUp d cracks crack_points porcelain_id conn db server = go _ _
    where
      go :
          (id : Option ℕ) (server' : Server)
          → GivesUp conn db (elim id [
            | none ↦ inr (give_up pg conn db server')
            | some laser_id ↦ insert_detections pg porcelain_id cracks crack_points conn db server'
          ])
      go none server' = (server', refl)
      go (some laser_id) server' =
          insert_detections-GivesUp porcelain_id cracks crack_points conn db server'

  finish-IsClosed :
      (conn : ℕ) (db : Database pg) (begun server : Server)
      → let done = finish pg true false conn db server in
        IsClosed conn begun (done.0, done.1.server)
  unfolding finish release
  finish-IsClosed conn db begun server =
      let committed = transaction_command pg "COMMIT" conn server in
      let rolled = transaction_command pg "ROLLBACK" conn committed.1 in
      elim (Bool-cases committed.0) [
        | inl kept ↦ rw kept (inl (refl, (server, ap (λ b. (b, committed.1)) kept)))
        | inr refused ↦ rw refused (inr (refl, inl (rolled.0, (committed.1, refl))))
      ]

  -- `batch_insert_crack_detections` ends every transaction that it begins, whatever the server answers:
  -- it answers `true` only after a COMMIT that succeeded, and `false` after a ROLLBACK or because there
  -- was no BEGIN.
  pub detections_body-IsClosed :
      (d : LaserMicroscopeData Json) (cracks : List CrackInfo) (crack_points : List (List Point3D))
      (porcelain_id conn : ℕ) (db : Database pg)
      → let done = detections_body pg d cracks crack_points porcelain_id conn db in
        IsClosed conn db.server (done.0, done.1.server)
  unfolding detections_body release
  detections_body-IsClosed d cracks crack_points porcelain_id conn db =
      let begun = transaction_command pg "BEGIN" conn db.server in
      let Closed = λ (r : Bool × Database pg). IsClosed conn db.server (r.0, r.1.server) in
      elim (Bool-cases begun.0) [
        | inr off ↦
            let e : detections_body pg d cracks crack_points porcelain_id conn db
                ≡ release pg conn db (false, begun.1) =
              rw off refl in
            subst Closed (sym e) (inr (refl, inr (ap (λ b. (b, begun.1)) off)))
        | inl on ↦
            let e : detections_body pg d cracks crack_points porcelain_id conn db
                ≡ elim (insert_all pg d cracks crack_points porcelain_id conn db begun.1) [
                  | inl server ↦ finish pg true false conn db server
                  | inr done ↦ done
                ] =
              rw on refl in
            subst Closed (sym e) (
              go (insert_all pg d cracks crack_points porcelain_id conn db begun.1)
                (insert_all-GivesUp d cracks crack_points porcelain_id conn db begun.1))
      ]
    where
      go :
          (inserted : Server ⊎ (Bool × Database pg))
          → GivesUp conn db inserted
          → let done : Bool × Database pg = elim inserted [
            | inl server ↦ finish pg true false conn db server
            | inr done' ↦ done'
          ] in
            IsClosed conn db.server (done.0, done.1.server)
      go (inl server) h = finish-IsClosed conn db db.server server
      go (inr done) (before, e) =
          subst (λ (r : Bool × Database pg). IsClosed conn db.server (r.0, r.1.server)) (sym e)
            (unfold give_up in inr (refl, inl (_, (before, refl))))

  -- The two simple batches do not look at the answer of COMMIT: with a connection, a BEGIN and
  -- statements that succeed, `batch_insert_laser_data` answers `true` although the COMMIT failed.
  pub batch_insert_laser_data_unchecked :
      (d : LaserMicroscopeData Json) (ds : List (LaserMicroscopeData Json)) (db : Database pg)
      (conn : ℕ) (available : List ℕ) (begun after_all ended : Server)
      → db.available ≡ conn ∷ available
      → transaction_command pg "BEGIN" conn db.server ≡ (true, begun)
      → send_all pg (map (λ x. closed pg (laser_values pg x)) (d ∷ ds)) conn begun
        ≡ (true, after_all)
      → transaction_command pg "COMMIT" conn after_all ≡ (false, ended)
      → batch_insert_laser_data pg (d ∷ ds) db ≡ some (true, record db { server = ended })
  unfolding batch_insert_laser_data batch batch_body acquire release
  batch_insert_laser_data_unchecked d ds db conn available begun after_all ended e b s c =
      rw (e, b, s, c) refl
