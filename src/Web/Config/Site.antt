-- ===== src/Web/Config/Site.antt =====
-- internal/web/config/siteinfo.go.
use nexguard.Prelude.Text.{Text, codes}

pub record SiteInfo : Type 0 where
  pub brand : Text
  pub legal_entity : Text
  pub address_line : Text
  pub address_city : Text
  pub phone : Text
  pub support_mail : Text
  pub domain : Text

abbrev pub site : SiteInfo
site = record {
  brand = codes "NexGuard";
  legal_entity = codes "Reach X, LLC";
  address_line = codes "3616 Far West Blvd., Suite 117-566";
  address_city = codes "Austin, Texas 78731";
  phone = codes "(877) 353-2374";
  support_mail = codes "support@nexguardhq.com";
  domain = codes "nexguardhq.com";
}
