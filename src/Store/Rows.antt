-- ===== src/Store/Rows.antt =====
-- internal/domain/entity: the rows of the tables, as far as the statements test their columns.
use whiteagent.Common.{Bool, Text}

pub data Policy : Type 0 where
  invite_required open_policy closed_policy : Policy

pub record Tenant : Type 0 where
  pub id : Text
  pub name : Text
  pub default_agent : Text
  pub join_policy : Policy
  pub rejection : Text
  pub deleted : Bool

pub record User : Type 0 where
  pub id : Text
  pub tenant : Text
  pub name : Text
  pub preferred_channel : Text
  pub deleted : Bool

pub record Identity : Type 0 where
  pub tenant : Text
  pub channel : Text
  pub external : Text
  pub user : Text

pub record Mapping : Type 0 where
  pub channel : Text
  pub external : Text
  pub tenant : Text

pub data InviteKind : Type 0 where
  tenant_invite user_invite other_invite : InviteKind

pub record Invite : Type 0 where
  pub code : Text
  pub kind : InviteKind
  pub tenant : Text
  pub target : Text
  pub used_by : Text
  pub revoked : Bool

pub record Agent : Type 0 where
  pub id : Text
  pub tenant : Text
  pub name : Text

pub record Chat : Type 0 where
  pub id : Text
  pub tenant : Text
  pub channel : Text
  pub external : Text
  pub user : Text
  pub is_group : Bool
  pub name : Text
  pub agent : Text
