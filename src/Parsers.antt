-- ===== src/Parsers.antt =====
-- parsers/: one parser for each URI scheme, and the dispatch on the scheme.
pub mod Url
pub mod Common
pub mod Vless
pub mod Trojan
pub mod Hysteria2
pub mod Tuic
pub mod Shadowsocks
pub mod Vmess
pub mod Registry
pub mod Sound
pub mod Dispatch
pub mod Clash
pub mod Fits
