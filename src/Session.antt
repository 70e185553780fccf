-- ===== src/Session.antt =====
-- The part of session_t of src/session.c that the log and the path repository use. The names that
-- session_make_obfuscated() and session_obfuscate_rec() make up are an interface here.
pub mod Names
use rsvndump.Base.{Text, Bool, true, false, Option, none, some}

-- `rename` is session_obfuscate_rec(), `invent` is session_make_obfuscated() without a table.
pub record Obfuscation : Type 1 where
  pub Names : Type 0
  pub rename : Names → Text → Text × Names
  pub invent : Names → Text × Names

module _ ⦃obf : Obfuscation⦄ where
  -- session_t; `obfuscate` is the flag SF_OBFUSCATE
  pub record Session : Type 0 where
    pub prefix : Text
    pub obfuscate : Bool
    pub names : obf.Names

  unfoldable pub session_obfuscate : Session → Option Text → Option Text × Session
  session_obfuscate session none = (none, session)
  session_obfuscate session (some path) = elim session.obfuscate [
    | false ↦ (some path, session)
    | true ↦
        let (name, names) = obf.rename session.names path in
        (some name, record session { names = names })
  ]

  unfoldable pub session_obfuscate_once : Session → Option Text → Option Text × Session
  session_obfuscate_once session none = (none, session)
  session_obfuscate_once session (some str) = elim session.obfuscate [
    | false ↦ (some str, session)
    | true ↦
        let (name, names) = obf.invent session.names in
        (some name, record session { names = names })
  ]
