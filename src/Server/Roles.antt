-- ===== src/Server/Roles.antt =====
-- all/socketrole.h, and the addresses of the four sockets from all/messagehandler.h.
use nat_tester.Base.{Bool, true, false, not, ◌&&◌}
use nat_tester.Address.{Address, is_ip_address_zero}

-- `SocketRole`: the first letter is the address, the second the port, primary or alternate. Every
-- value that the code makes is an enumerator, so `IsValidSocketRole` is true of it.
pub data Role : Type 0 where
  role_pp role_pa role_ap role_aa : Role

-- `SocketRoleSwapPort` and `SocketRoleSwapIP`
abbrev pub swap_port : Role → Role
swap_port role_pp = role_pa
swap_port role_pa = role_pp
swap_port role_ap = role_aa
swap_port role_aa = role_ap

abbrev pub swap_ip : Role → Role
swap_ip role_pp = role_ap
swap_ip role_pa = role_aa
swap_ip role_ap = role_pp
swap_ip role_aa = role_pa

abbrev pub same_role : Role → Role → Bool
same_role role_pp role_pp = true
same_role role_pa role_pa = true
same_role role_ap role_ap = true
same_role role_aa role_aa = true
same_role _ _ = false

-- `TransportAddress`
pub record TransportAddress : Type 0 where
  pub addr : Address
  pub valid : Bool

-- `TransportAddressSet`
pub record AddressSet : Type 0 where
  pub pp : TransportAddress
  pub pa : TransportAddress
  pub ap : TransportAddress
  pub aa : TransportAddress

-- `set[role]`
abbrev pub at_role : AddressSet → Role → TransportAddress
at_role set role_pp = set.pp
at_role set role_pa = set.pa
at_role set role_ap = set.ap
at_role set role_aa = set.aa

-- `CStunRequestHandler::HasAddress`
abbrev pub has_address : AddressSet → Role → Bool
has_address set role = (at_role set role).valid

-- `CStunRequestHandler::IsIPAddressZeroOrInvalid`
unfoldable pub is_ip_address_zero_or_invalid : AddressSet → Role → Bool
is_ip_address_zero_or_invalid set role =
    not (has_address set role && not (is_ip_address_zero (at_role set role).addr))
