-- ===== src/Shell/Network.antt =====
-- jordyOS/net/command.c: `net_command`. The driver is called with what is listed in `calls`; whether
-- `rtl_up` found a card is a parameter.
use os_research_lab.Base.{
  ℕ, List, [], ◌∷◌, ◌++◌, Option, some, none, Bool, ◌&&◌, ◌||◌, ◌==◌, length, codes, if◌then◌else◌,
}
use os_research_lab.Packet.{net_ip}
use os_research_lab.Receive.{Network}
use os_research_lab.Shell.{net_print_number, net_print_ip, words}
use os_research_lab.Shell.Firewall.{says, asks_for}

pub data DriverCall : Type 0 where
  rtl_up rtl_down : DriverCall

-- `native_network` after the command, the calls and what was printed.
pub record Asked : Type 0 where
  pub network : Network
  pub calls : List DriverCall
  pub shown : List ℕ

unfoldable pub network_shown : Network → List ℕ
network_shown network =
    (if network.up then codes "Network: up, " else codes "Network: down, ")
    ++ net_print_ip net_ip
    ++ codes "/24, RTL8139, polled\n"
    ++ (if network.echo then codes "UDP echo 7777: on\n" else codes "UDP echo 7777: off\n")
    ++ codes "rx="
    ++ net_print_number network.received
    ++ codes " tx="
    ++ net_print_number network.transmitted
    ++ codes " invalid="
    ++ net_print_number network.invalid
    ++ codes " ignored="
    ++ net_print_number network.ignored
    ++ codes " tx_dropped="
    ++ net_print_number network.tx_dropped
    ++ codes " driver_errors="
    ++ net_print_number network.driver_errors
    ++ codes "\n"

abbrev pub usage : Network → Asked
usage network = record {
  network = network;
  calls = [];
  shown = codes "net status | up | down | echo on|off\n";
}

unfoldable pub net_words : Bool → Network → Option (List (List ℕ)) → Asked
net_words found network none = usage network
net_words found network (some w) =
    if (length w == 0) || asks_for w (codes "status")
    then record { network = network; calls = []; shown = network_shown network }
    else if asks_for w (codes "up")
    then record {
      network = network;
      calls = rtl_up ∷ [];
      shown =
          if found
          then codes "RTL8139 up at 192.0.2.2/24.\n"
          else codes "No usable RTL8139 on PCI bus 0.\n";
    }
    else if asks_for w (codes "down")
    then record { network = network; calls = rtl_down ∷ []; shown = codes "Network down.\n" }
    else if (length w == 2)
        && says w 0 (codes "echo")
        && (says w 1 (codes "on") || says w 1 (codes "off"))
    then record {
      network = record network { echo = says w 1 (codes "on") };
      calls = [];
      shown =
          if says w 1 (codes "on")
          then codes "UDP echo 7777 enabled.\n"
          else codes "UDP echo 7777 disabled.\n";
    }
    else usage network

unfoldable pub net_command : Bool → Network → List ℕ → Asked
net_command found network arguments = net_words found network (words arguments 3)
