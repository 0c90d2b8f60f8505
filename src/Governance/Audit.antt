-- ===== src/Governance/Audit.antt =====
-- app/governance/audit_models.py, app/governance/audit_repository.py and
-- app/governance/audit_logger.py.
use ai_risk_engine.Exec.{Exec, ok, ◌>>=◌}
use ai_risk_engine.Json.{Fields}
use ai_risk_engine.Prelude.{◌≡◌, String, Option, List, [], ◌∷◌, ◌++◌}

pub record AuditRecord : Type 0 where
  pub actor : String
  pub tenant_id : String
  pub action : String
  pub resource_type : String
  pub resource_id : String
  pub reason : Option String
  pub correlation_id : String
  pub metadata : Option Fields
  pub timestamp_utc : String

-- The repository, and the clock: `now` is the ISO form of `datetime.now(timezone.utc)`.
pub record AuditLogger (W : Type 0) : Type 0 where
  pub now : W → String × W
  pub save : AuditRecord → Exec W (Unit {0})

module _ {W : Type 0} (audit : AuditLogger W) where
  -- `datetime.now(timezone.utc)`
  unfoldable pub utc_now : Exec W String
  utc_now w = let (time, w') = audit.now w in (ok time, w')

  -- `AuditLogger.log_action`; the record is complete but for the time.
  unfoldable pub log_action : AuditRecord → Exec W (Unit {0})
  unfolding utc_now
  log_action entry = do time ← utc_now; audit.save (record entry { timestamp_utc = time })

  -- A repository that keeps what is saved, seen as the list of all records. Reading the clock
  -- changes nothing that is kept.
  pub record IsTrail (trail : W → List AuditRecord) : Type 0 where
    pub now_keeps : (w : W) → trail (audit.now w).1 ≡ trail w
    pub save_ok : (r : AuditRecord) (w : W) → (audit.save r w).0 ≡ ok tt
    pub save_adds : (r : AuditRecord) (w : W) → trail (audit.save r w).1 ≡ trail w ++ r ∷ []

-- A keyword argument list of `log_action` has no time: it is filled in there.
abbrev pub untimed : String
untimed = ""
