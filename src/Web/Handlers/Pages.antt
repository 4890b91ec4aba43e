-- ===== src/Web/Handlers/Pages.antt =====
-- internal/web/handlers/landing.go, pages.go, articles.go, alternatives.go and seo.go.
pub mod Competitors
pub mod Articles
use nexguard.Prelude.{List, [], ◌∷◌, ◌++◌, map, Option, none, some, if◌then◌else◌, ◌==◌}
use nexguard.Prelude.Text.{Text, codes, text_eq}
use nexguard.Exec.{Exec, pure, attempt, ◌>>=◌, ◌>>◌}
use nexguard.Web.World.{Service}
use nexguard.Web.Config.Site.{site}
use nexguard.Web.Handlers.Pages.Competitors.{competitors}
use nexguard.Web.Http.{
  Request, Article, View, plain, index, show, comparison, Body, text, Response, respond, http_error,
  redirect, Handler, page, page_anyway,
}

unfoldable pub landing : Handler
landing (some u) r = pure (redirect (codes "/dashboard"))
landing none r = page_anyway (codes "landing.html") plain

unfoldable pub static_page : Text → Handler
static_page name u r = page name plain

unfoldable pub find_article : Text → List Article → Option Article
find_article slug [] = none
find_article slug (a ∷ more) = if text_eq a.slug slug then some a else find_article slug more

unfoldable pub show_article : Option Article → Exec Service Response
show_article none = pure (http_error 404 (codes "404 page not found"))
show_article (some a) = page (codes "articles-show.html") (show a)

-- The list `Articles`; its texts are in Pages.Articles.
module _ (articles : List Article) where
  unfoldable pub articles_index : Handler
  articles_index u r = page (codes "articles-index.html") (index articles)

  unfoldable pub article_show : Handler
  unfolding find_article show_article
  article_show u r = show_article (find_article r.slug articles)

unfoldable pub alternatives : Handler
alternatives u r = page (codes "alternatives.html") (comparison competitors)

abbrev pub sitemap_static_paths : List Text
sitemap_static_paths =
    codes "/"
    ∷ codes "/about"
    ∷ codes "/contact"
    ∷ codes "/privacy"
    ∷ codes "/terms"
    ∷ codes "/articles"
    ∷ codes "/alternatives"
    ∷ []

-- `strings.TrimSuffix(s, "/")`
unfoldable pub trim_slash : Text → Text
trim_slash [] = []
trim_slash (c ∷ []) = if c == b'/' then [] else c ∷ []
trim_slash (c ∷ (d ∷ s)) = c ∷ trim_slash (d ∷ s)

unfoldable pub site_url : Text → Text
unfolding trim_slash
site_url path = codes "https://" ++ (trim_slash site.domain ++ path)

unfoldable pub robots_txt : Handler
unfolding site_url
robots_txt u r = pure (
    respond 200 (
      text (
        codes "User-agent: *\nAllow: /\nDisallow: /dashboard\nDisallow: /checkout\n\nSitemap: "
        ++ (site_url (codes "/sitemap.xml") ++ codes "\n"))))

-- The locations that `SitemapXML` lists.
unfoldable pub sitemap_urls : List Article → List Text
unfolding site_url
sitemap_urls articles =
    map site_url sitemap_static_paths ++ map (λ a. site_url (codes "/articles/" ++ a.slug)) articles

-- Of `xml.MarshalIndent` of the locations, which may fail; `xml.Header` comes first.
unfoldable pub sitemap_reply : Option Text → Response
sitemap_reply none = http_error 500 (codes "internal error")
sitemap_reply (some body) =
    respond 200
      (text (codes "<?xml version=\"1.0\" encoding=\"UTF-8\"?>\n" ++ (body ++ codes "\n")))

unfoldable pub sitemap_xml : (List Text → Option Text) → List Article → Handler
unfolding sitemap_urls sitemap_reply
sitemap_xml marshal articles u r = pure (sitemap_reply (marshal (sitemap_urls articles)))
