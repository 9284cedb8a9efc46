-- ===== src/Schema/Enrollment.antt =====
-- internal/store/group_enrollment.go and delegations.go: the tables of the enrollment policies.
use kysignon_server.Base.{ℕ, Bool, true, ◌&&◌, ◌||◌, Option, String}

-- The bits of allowed_mask: 1 for TOTP, 2 for push, 4 for WebAuthn.
pub record FactorMask : Type 0 where
  pub totp_bit : Bool
  pub push_bit : Bool
  pub webauthn_bit : Bool

-- Mask 7.
abbrev pub all_factors : FactorMask
all_factors = record { totp_bit = true; push_bit = true; webauthn_bit = true }

abbrev pub intersect : FactorMask → FactorMask → FactorMask
intersect a b = record {
  totp_bit = a.totp_bit && b.totp_bit;
  push_bit = a.push_bit && b.push_bit;
  webauthn_bit = a.webauthn_bit && b.webauthn_bit;
}

-- a & b <> 0
abbrev pub overlaps : FactorMask → FactorMask → Bool
overlaps a b =
    a.totp_bit && b.totp_bit || a.push_bit && b.push_bit || a.webauthn_bit && b.webauthn_bit

-- A policy for the organization, for its administrators, or for one group.
pub record EnrollmentPolicy : Type 0 where
  pub scope : String
  pub required : Bool
  pub allowed_mask : FactorMask
  pub grace_seconds : ℕ
  pub revision : ℕ

-- `due_at` is in Unix seconds.
pub record EnrollmentDeadline : Type 0 where
  pub user_id : String
  pub scope : String
  pub due_at : ℕ

pub record AdminDelegation : Type 0 where
  pub user_id : String
  pub kind : String
  pub app_id : Option String
