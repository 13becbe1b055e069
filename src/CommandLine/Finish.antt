-- ===== src/CommandLine/Finish.antt =====
-- What scan_cmd_line() of src/netsh.c does behind its options: the default hosts, the settings of a
-- test without a control connection, the scanner of the test's own options and the output format.
pub mod Hosts
use netperf_copilot.Common.{
  ℕ, zero, suc, Bool, true, false, not, ◌&&◌, ◌||◌, List, [], ◌∷◌, Option, none, some, ◌==◌,
  if◌then◌else◌, length, ℤ, pos, negsuc, Bytes, codes,
}
use netperf_copilot.CString.{same_nocase, contains}
use netperf_copilot.Platform.{Platform}
use netperf_copilot.CommandLine.Globals.{Options}

-- A default host for one of two families: the first, or the second if the first is unspecified.
-- `none`: netperf does not understand the family.
unfoldable pub default_host : Platform → Bytes → Bytes → ℕ → ℕ → Option Bytes
default_host p v4 v6 first second =
    if first == p.af_inet || first == p.af_rds
    then some v4
    else if first == p.af_unspec
    then if second == p.af_inet || second == p.af_unspec || second == p.af_rds
      then some v4
      else if second == p.af_inet6
      then some v6
      else none
    else if first == p.af_inet6
    then some v6
    else none

-- host_name and address_family. `resolve` is the family that resolve_host() finds for a name.
unfoldable pub finish_host : Platform → (Bytes → ℕ → Option ℕ) → Options → Option Options
finish_host p resolve o =
    if length o.host_name == 0
    then elim (default_host p (codes "localhost") (codes "::1") o.address_family
        o.local_address_family) [ none ↦ none | some name ↦ some (record o { host_name = name }) ]
    else elim (resolve o.host_name o.address_family) [
      | none ↦ none
      | some family ↦ some (record o { address_family = family })
    ]

-- local_host_name
unfoldable pub finish_local_host : Platform → Options → Option Options
finish_local_host p o =
    if length o.local_host_name == 0
    then elim (default_host p (codes "0.0.0.0") (codes "::0") o.local_address_family
        o.address_family) [ none ↦ none | some name ↦ some (record o { local_host_name = name }) ]
    else some o

-- Without a control connection there is no remote side to set.
pub finish_remote : Options → Options
finish_remote o =
    if o.no_control
    then record o {
      remote_socket_prio = negsuc 0;
      remote_socket_tos = negsuc 0;
      remote_recv_align = negsuc 0;
      remote_send_align = negsuc 0;
      remote_send_offset = negsuc 0;
      remote_recv_offset = negsuc 0;
      remote_cpu_rate = some (codes "-1.0");
      remote_cpu_usage = 0;
    }
    else o

-- The scanners of a test's own options, of which this build has two.
pub data Scanner : Type 0 where
  scan_sockets_args : Scanner
  scan_omni_args : Scanner
  no_scanner : Scanner

abbrev pub named : Bytes → List Bytes → Bool
named name [] = false
named name (n ∷ ns) = same_nocase name n || named name ns

pub scanner : Bytes → Scanner
scanner test_name =
    if named test_name (codes "TCP_SENDFILE" ∷ codes "TCP_CC" ∷ codes "TCP_MSS" ∷ [])
    then scan_sockets_args
    else if named test_name (
        codes "OMNI"
        ∷ codes "TCP_STREAM"
        ∷ codes "TCP_MAERTS"
        ∷ codes "TCP_RR"
        ∷ codes "TCP_CRR"
        ∷ codes "UDP_STREAM"
        ∷ codes "UDP_RR"
        ∷ codes "UUID"
        ∷ [])
    then scan_omni_args
    else no_scanner

-- Whether the name of a test has "RR" in it, in one of its four spellings.
pub names_rr : Bytes → Bool
names_rr test_name =
    contains test_name (codes "RR")
    || contains test_name (codes "rr")
    || contains test_name (codes "Rr")
    || contains test_name (codes "rR")

-- libfmt: transactions are the default of a request/response test and make no sense for another.
pub finish_format : Options → Options
finish_format o =
    if same_nocase o.test_name (codes "omni")
    then o
    else if o.libfmt == b'?'
    then record o { libfmt = if names_rr o.test_name then b'x' else b'm' }
    else if o.libfmt == b'x' && not (names_rr o.test_name)
    then record o { libfmt = b'm' }
    else o

infixl 5 ◌>>=◌
abbrev ◌>>=◌ : Option Options → (Options → Option Options) → Option Options
none >>= f = none
some o >>= f = f o

-- All of it, up to the scanner of the test's own options, and what is behind that; `scan_test` is
-- what the scanner does to these globals.
pub finish :
    Platform
    → (Bytes → ℕ → Option ℕ)
    → (Scanner → Options → Option Options)
    → Options
    → Option Options
finish p resolve scan_test o = do
  a ← finish_host p resolve o
  b ← finish_local_host p a
  c ← scan_test (scanner b.test_name) (finish_remote b)
  some (finish_format c)
