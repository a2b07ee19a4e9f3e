-- ===== src/Captive.antt =====
-- components/ot_captive/ot_captive_dns.c: one datagram of DNS in, one out.
pub mod Datagram
pub mod Names
pub mod Replies
pub mod Lookups
mod Examples
