-- ===== src/Pki/Cert.antt =====
-- crypto/x509's `Certificate`, as far as the program reads or sets it.
use remote_exec.Base.{Text, Bool, List}
use remote_exec.Base.Int.{ℤ}

pub data Usage : Type 0 where
  client_auth server_auth : Usage

pub data KeyUsage : Type 0 where
  cert_sign crl_sign digital_signature : KeyUsage

pub record Certificate : Type 0 where
  pub raw : Text
  pub common_name : Text
  pub organization : List Text
  pub not_before : ℤ
  pub not_after : ℤ
  pub key_usage : List KeyUsage
  pub basic_constraints_valid : Bool
  pub is_ca : Bool
  pub max_path_len_zero : Bool
  pub usages : List Usage
  pub dns_names : List Text
  pub ips : List Text
