-- ===== src/Enums.antt =====
-- shared/src/enums.ts: the enumerations that server and web share, with their equality tests.
use gsm.Common.{◌≡◌, ◌↔◌, Bool, true, false, Eq, arith}

-- Site-wide roles.
pub data Role : Type 0 where
  admin user : Role

abbrev pub is_admin : Role → Bool
is_admin admin = true
is_admin user = false

pub data InstanceRole : Type 0 where
  owner operator viewer : InstanceRole

abbrev pub role_beq : InstanceRole → InstanceRole → Bool
role_beq owner owner = true
role_beq operator operator = true
role_beq viewer viewer = true
role_beq _ _ = false

pub role_beq_iff : (a b : InstanceRole) → (role_beq a b ≡ true) ↔ (a ≡ b)
role_beq_iff a b = ground arith

instance abbrev pub role_eq : Eq InstanceRole
role_eq = record { test = role_beq; test_iff = role_beq_iff }

-- Where an instance is: `installing` and `install_failed` are the server's, the rest follow the
-- container on the node.
pub data InstanceStatus : Type 0 where
  installing install_failed stopped starting running stopping crashed unknown : InstanceStatus

abbrev pub status_beq : InstanceStatus → InstanceStatus → Bool
status_beq installing installing = true
status_beq install_failed install_failed = true
status_beq stopped stopped = true
status_beq starting starting = true
status_beq running running = true
status_beq stopping stopping = true
status_beq crashed crashed = true
status_beq unknown unknown = true
status_beq _ _ = false

pub status_beq_iff : (a b : InstanceStatus) → (status_beq a b ≡ true) ↔ (a ≡ b)
status_beq_iff a b = ground arith

instance abbrev pub status_eq : Eq InstanceStatus
status_eq = record { test = status_beq; test_iff = status_beq_iff }
