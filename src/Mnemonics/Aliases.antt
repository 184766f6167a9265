-- ===== src/Mnemonics/Aliases.antt =====
-- The built-in tables of tftpos/mnemonics.py.
use tftp_os.Prelude.{[], ◌∷◌, codes}
use tftp_os.Prelude.Text.{Text}
use tftp_os.Dict.{Dict}

pub record DistroAlias : Type 0 where
  pub os_family : Text
  pub vendor : Text
  pub version : Text

abbrev alias : Text → Text → Text → DistroAlias
alias os_family vendor version = record {
  os_family = os_family;
  vendor = vendor;
  version = version;
}

abbrev pub builtin_aliases : Dict Text DistroAlias
builtin_aliases =
    (codes "fedora40", alias (codes "fedora") (codes "fedora") (codes "40"))
    ∷ (codes "fedora41", alias (codes "fedora") (codes "fedora") (codes "41"))
    ∷ (codes "fedora42", alias (codes "fedora") (codes "fedora") (codes "42"))
    ∷ (codes "rhel8", alias (codes "fedora") (codes "rhel") (codes "8"))
    ∷ (codes "rhel9", alias (codes "fedora") (codes "rhel") (codes "9"))
    ∷ (codes "rhel10", alias (codes "fedora") (codes "rhel") (codes "10"))
    ∷ (codes "rocky8", alias (codes "fedora") (codes "rocky") (codes "8"))
    ∷ (codes "rocky9", alias (codes "fedora") (codes "rocky") (codes "9"))
    ∷ (codes "alma8", alias (codes "fedora") (codes "alma") (codes "8"))
    ∷ (codes "alma9", alias (codes "fedora") (codes "alma") (codes "9"))
    ∷ (codes "centos8", alias (codes "fedora") (codes "centos") (codes "8"))
    ∷ (codes "centos9", alias (codes "fedora") (codes "centos") (codes "9"))
    ∷ (codes "deb11", alias (codes "debian") (codes "debian") (codes "11"))
    ∷ (codes "deb12", alias (codes "debian") (codes "debian") (codes "12"))
    ∷ (codes "deb13", alias (codes "debian") (codes "debian") (codes "13"))
    ∷ (codes "bullseye", alias (codes "debian") (codes "debian") (codes "11"))
    ∷ (codes "bookworm", alias (codes "debian") (codes "debian") (codes "12"))
    ∷ (codes "trixie", alias (codes "debian") (codes "debian") (codes "13"))
    ∷ (codes "ubuntu2204", alias (codes "ubuntu") (codes "ubuntu") (codes "22.04"))
    ∷ (codes "ubuntu2404", alias (codes "ubuntu") (codes "ubuntu") (codes "24.04"))
    ∷ (codes "ubuntu2410", alias (codes "ubuntu") (codes "ubuntu") (codes "24.10"))
    ∷ (codes "jammy", alias (codes "ubuntu") (codes "ubuntu") (codes "22.04"))
    ∷ (codes "noble", alias (codes "ubuntu") (codes "ubuntu") (codes "24.04"))
    ∷ (codes "sles15", alias (codes "suse") (codes "sles") (codes "15"))
    ∷ (codes "leap15", alias (codes "suse") (codes "opensuse") (codes "15"))
    ∷ (codes "tumbleweed", alias (codes "suse") (codes "opensuse") (codes "tumbleweed"))
    ∷ (codes "fbsd13", alias (codes "freebsd") (codes "freebsd") (codes "13"))
    ∷ (codes "fbsd14", alias (codes "freebsd") (codes "freebsd") (codes "14"))
    ∷ (codes "freebsd13", alias (codes "freebsd") (codes "freebsd") (codes "13"))
    ∷ (codes "freebsd14", alias (codes "freebsd") (codes "freebsd") (codes "14"))
    ∷ (codes "obsd75", alias (codes "openbsd") (codes "openbsd") (codes "7.5"))
    ∷ (codes "obsd76", alias (codes "openbsd") (codes "openbsd") (codes "7.6"))
    ∷ (codes "openbsd76", alias (codes "openbsd") (codes "openbsd") (codes "7.6"))
    ∷ (codes "nbsd10", alias (codes "netbsd") (codes "netbsd") (codes "10"))
    ∷ (codes "netbsd10", alias (codes "netbsd") (codes "netbsd") (codes "10"))
    ∷ (codes "arch", alias (codes "arch") (codes "arch") (codes "latest"))
    ∷ (codes "win10", alias (codes "windows") (codes "windows") (codes "10"))
    ∷ (codes "win11", alias (codes "windows") (codes "windows") (codes "11"))
    ∷ (codes "win2022", alias (codes "windows") (codes "windows") (codes "2022"))
    ∷ (codes "win2025", alias (codes "windows") (codes "windows") (codes "2025"))
    ∷ []

-- The family and the vendor of a prefix.
abbrev pub family_prefixes : Dict Text (Text × Text)
family_prefixes =
    (codes "fedora", (codes "fedora", codes "fedora"))
    ∷ (codes "rhel", (codes "fedora", codes "rhel"))
    ∷ (codes "rocky", (codes "fedora", codes "rocky"))
    ∷ (codes "alma", (codes "fedora", codes "alma"))
    ∷ (codes "centos", (codes "fedora", codes "centos"))
    ∷ (codes "deb", (codes "debian", codes "debian"))
    ∷ (codes "debian", (codes "debian", codes "debian"))
    ∷ (codes "ubuntu", (codes "ubuntu", codes "ubuntu"))
    ∷ (codes "sles", (codes "suse", codes "sles"))
    ∷ (codes "leap", (codes "suse", codes "opensuse"))
    ∷ (codes "suse", (codes "suse", codes "suse"))
    ∷ (codes "fbsd", (codes "freebsd", codes "freebsd"))
    ∷ (codes "freebsd", (codes "freebsd", codes "freebsd"))
    ∷ (codes "obsd", (codes "openbsd", codes "openbsd"))
    ∷ (codes "openbsd", (codes "openbsd", codes "openbsd"))
    ∷ (codes "nbsd", (codes "netbsd", codes "netbsd"))
    ∷ (codes "netbsd", (codes "netbsd", codes "netbsd"))
    ∷ (codes "arch", (codes "arch", codes "arch"))
    ∷ (codes "win", (codes "windows", codes "windows"))
    ∷ (codes "windows", (codes "windows", codes "windows"))
    ∷ []
