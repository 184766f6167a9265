-- ===== src/Config/Hosts.antt =====
-- load_hosts and load_profile.
use tftp_os.Prelude.{List, [], codes, text_eq, lower, ◌==◌, if◌then◌else◌}
use tftp_os.Prelude.Text.{Text}
use tftp_os.Result.{Result, ok, ◌>>=◌}
use tftp_os.Json.{obj, Fields, item_or, as_fields}
use tftp_os.HostRule.{BootFirmware, bios, uefi, HostRule, ProvisionProfile}
use tftp_os.Config.{TomlFile, data_table}
use tftp_os.Config.Read.{
  need_text, text_or, num_or, option_text_of, fields_of, items_of, texts_of, each_table,
}

unfoldable pub host_rule : Fields → Result HostRule
unfolding need_text text_or num_or option_text_of
host_rule entry = do
  profile ← need_text (codes "profile") entry
  os_family ← need_text (codes "os_family") entry
  os_version ← need_text (codes "os_version") entry
  vendor ← text_or (codes "vendor") [] entry
  priority ← num_or (codes "priority") 100 entry
  mac ← option_text_of (codes "mac") entry
  mac_prefix ← option_text_of (codes "mac_prefix") entry
  hostname_pattern ← option_text_of (codes "hostname_pattern") entry
  subnet ← option_text_of (codes "subnet") entry
  serial ← option_text_of (codes "serial") entry
  group ← option_text_of (codes "group") entry
  arch ← option_text_of (codes "arch") entry
  bmc_host ← option_text_of (codes "bmc_host") entry
  bmc_user ← option_text_of (codes "bmc_user") entry
  bmc_password ← option_text_of (codes "bmc_password") entry
  bmc_driver ← option_text_of (codes "bmc_driver") entry
  deploy_mode ← text_or (codes "deploy_mode") (codes "tftp") entry
  console_type ← option_text_of (codes "console_type") entry
  console_endpoint ← option_text_of (codes "console_endpoint") entry
  ok (record {
    profile = profile;
    os_family = os_family;
    os_version = os_version;
    vendor = vendor;
    priority = priority;
    mac = mac;
    mac_prefix = mac_prefix;
    hostname_pattern = hostname_pattern;
    subnet = subnet;
    serial = serial;
    group = group;
    arch = arch;
    bmc_host = bmc_host;
    bmc_user = bmc_user;
    bmc_password = bmc_password;
    bmc_driver = bmc_driver;
    deploy_mode = deploy_mode;
    console_type = console_type;
    console_endpoint = console_endpoint;
  })

unfoldable pub load_hosts : TomlFile → Result (List HostRule)
unfolding items_of each_table host_rule
load_hosts f = do
  hosts ← data_table f
  entries ← items_of (codes "host") hosts
  each_table host_rule entries

abbrev pub firmware_of : Text → BootFirmware
firmware_of t = if lower t == codes "uefi" then uefi else bios

unfoldable pub provision_profile : Fields → Result ProvisionProfile
unfolding need_text text_or fields_of texts_of lower
provision_profile profile = do
  firmware ← text_or (codes "firmware") (codes "bios") profile
  name ← need_text (codes "name") profile
  os_family ← need_text (codes "os_family") profile
  os_version ← need_text (codes "os_version") profile
  vendor ← text_or (codes "vendor") [] profile
  arch ← text_or (codes "arch") (codes "x86_64") profile
  install_url ← text_or (codes "install_url") [] profile
  autoinstall_url ← text_or (codes "autoinstall_url") [] profile
  network ← fields_of (codes "network") profile
  disk ← fields_of (codes "disk") profile
  packages ← texts_of (codes "packages") profile
  post_scripts ← texts_of (codes "post_scripts") profile
  extra ← fields_of (codes "extra") profile
  ipxe_commands ← texts_of (codes "ipxe_commands") profile
  dhcp_options ← fields_of (codes "dhcp_options") profile
  ok (record {
    name = name;
    os_family = os_family;
    os_version = os_version;
    vendor = vendor;
    arch = arch;
    firmware = firmware_of firmware;
    install_url = install_url;
    autoinstall_url = autoinstall_url;
    network = network;
    disk = disk;
    packages = packages;
    post_scripts = post_scripts;
    extra = extra;
    ipxe_commands = ipxe_commands;
    dhcp_options = dhcp_options;
  })

-- The table `profile`, or the whole file.
unfoldable pub load_profile : TomlFile → Result ProvisionProfile
unfolding item_or as_fields provision_profile
load_profile f = do
  whole ← data_table f
  profile ← as_fields (item_or (codes "profile") (obj whole) whole)
  provision_profile profile
